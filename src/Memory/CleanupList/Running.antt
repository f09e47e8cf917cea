-- ===== src/Memory/CleanupList/Running.antt =====
-- `runAll` of cleanup_list.hpp.
use structured_chaos.Prelude.{
  ℕ, zero, suc, ◌<◌, ◌≡◌, refl, sym, ap, ◌∙◌, Option, none, some, List, [], ◌∷◌, ◌++◌, length,
  write, arith,
}
use structured_chaos.Memory.CleanupList.{
  CleanupList, read_head, swap_head, remember, remember_all, walk, run_all, Calls, Reach,
}
use structured_chaos.Memory.CleanupList.Chain.{times, Chain, Chain-write}
use structured_chaos.Memory.CleanupList.Linking.{Reach-Linked}

-- The list after some nodes were put in front of it, one after the other.
abbrev pub put : List ℕ → List ℕ → List ℕ
put [] l = l
put (n ∷ ns) l = put ns (n ∷ l)

-- Each node is in neither of the lists when it is put in front of the second.
abbrev pub New : List ℕ → List ℕ → List ℕ → Type 0
New [] others l = Unit {0}
New (n ∷ ns) others l = (times n others ≡ 0) × (times n l ≡ 0) × New ns others (n ∷ l)

module _ (made : ℕ → List ℕ) where
  -- What the destructors of some objects remember, in front of a list.
  abbrev pub put_made : List ℕ → List ℕ → List ℕ
  put_made [] l = l
  put_made (n ∷ r) l = put_made r (put (made n) l)

  -- What they remember is new each time.
  abbrev pub MadeNew : List ℕ → List ℕ → Type 0
  MadeNew [] l = Unit {0}
  MadeNew (n ∷ r) l = New (made n) r l × MadeNew r (put (made n) l)

  -- After so many rounds the destructors remember nothing more, no round has so many nodes, and what they
  -- remember is new each time.
  abbrev pub Ends : ℕ → ℕ → List ℕ → Type 0
  Ends nodes zero l = l ≡ []
  Ends nodes (suc rounds) l = MadeNew l [] × (length l < nodes) × Ends nodes rounds (put_made l [])

  -- The objects in the order they should be destroyed.
  abbrev pub newest_first : ℕ → List ℕ → List ℕ
  newest_first zero l = []
  newest_first (suc rounds) l = l ++ newest_first rounds (put_made l [])

-- Both chains after some nodes were remembered.
remember_all-Chain :
    (ns : List ℕ) (s : CleanupList) (first : Option ℕ) (others l : List ℕ)
    → New ns others l
    → Chain s.next first others
    → Chain s.next s.head l
    → Chain (remember_all ns s).next first others
      × Chain (remember_all ns s).next (remember_all ns s).head (put ns l)
unfolding remember_all remember read_head swap_head
remember_all-Chain [] s first others l h c d = (c, d)
remember_all-Chain (n ∷ ns) s first others l (out, out', h) c d =
    let same : write s.next n s.head n ≡ s.head = ground arith in
    remember_all-Chain ns (remember n s) first others (n ∷ l) h
      (Chain-write s.next first others n s.head out c)
      (refl, rw (same) (Chain-write s.next s.head l n s.head out' d))

-- The inner loop destroys the nodes that it took, in their order.
walk-Chain :
    (made : ℕ → List ℕ) (fuel : ℕ) (first : Option ℕ) (s : CleanupList) (r l : List ℕ)
    → length r < fuel
    → MadeNew made r l
    → Chain s.next first r
    → Chain s.next s.head l
    → (s' : CleanupList) × (walk made fuel first s ≡ some (s', r))
      × Chain s'.next s'.head (put_made made r l)
unfolding walk
walk-Chain made zero first s r l less new c d = absurd (omega arith)
walk-Chain made (suc fuel) first s [] l less new c d = (s, rw (c, walk) refl, d)
walk-Chain made (suc fuel) first s (n ∷ r) l less (new, news) (e, c) d =
    let (c', d') = remember_all-Chain (made n) s (s.next n) r l new c d in
    let (s', w, h) =
      walk-Chain made fuel (s.next n) (remember_all (made n) s) r (put (made n) l) (omega arith)
        news c' d' in
    (s', rw (e, walk, w) refl, h)

newest_first_nil : (made : ℕ → List ℕ) (rounds : ℕ) → newest_first made rounds [] ≡ []
newest_first_nil made zero = refl
newest_first_nil made (suc rounds) = newest_first_nil made rounds

run_all_empty :
    (made : ℕ → List ℕ) (nodes rounds : ℕ) (s : CleanupList)
    → s.head ≡ none
    → run_all made nodes (suc rounds) s ≡ some (s, [])
unfolding run_all
run_all_empty made nodes rounds s c = simp (run_all, c)

run_all-Chain :
    (made : ℕ → List ℕ) (nodes rounds : ℕ) (s : CleanupList) (l : List ℕ)
    → Chain s.next s.head l
    → Ends made nodes rounds l
    → (s' : CleanupList) × (run_all made nodes (suc rounds) s
        ≡ some (s', newest_first made rounds l))
      × (s'.head ≡ none)
unfolding run_all
run_all-Chain made nodes zero s [] c h = (s, run_all_empty made nodes 0 s c, c)
run_all-Chain made nodes zero s (n ∷ l) c h = absurd (ground arith)
run_all-Chain made nodes (suc rounds) s [] c h = (
  s,
  run_all_empty made nodes (suc rounds) s c
      ∙ ap (λ l. some (s, l)) (sym (newest_first_nil made rounds)),
  c,
)
run_all-Chain made nodes (suc rounds) s (n ∷ l) (e, c) (new, less, h) =
    let taken = record s { head = none } in
    let (s', w, d) = walk-Chain made nodes (some n) taken (n ∷ l) [] less new (refl, c) refl in
    let (s'', r, empty) = run_all-Chain made nodes rounds s' (put_made made (n ∷ l) []) d h in
    (s'', rw (run_all, e, w, r) refl, empty)

-- After calls of remember by any threads, in whatever order their accesses of m_head came and
-- however often their compare-exchanges failed, runAll ends with the list empty and has destroyed
-- each object that was linked, newest first, then those that the destructors remembered
-- meanwhile, newest first, and so on, each as often as it was remembered. After some rounds the
-- destructors remember nothing more, and each node they remember is in none of the lists at that
-- time.
pub run_all-newest_first :
    (made : ℕ → List ℕ) (nodes rounds : ℕ) (c : Calls)
    → Reach c
    → Ends made nodes rounds c.order
    → (s : CleanupList) × (run_all made nodes (suc rounds) c.list
        ≡ some (s, newest_first made rounds c.order))
      × (s.head ≡ none)
run_all-newest_first made nodes rounds c reached h =
    run_all-Chain made nodes rounds c.list c.order (Reach-Linked c reached).chain h
