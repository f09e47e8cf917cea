-- ===== src/Threading/RingQueue/Taking.antt =====
-- A thread that pops alone from the queue of ring_queue.hpp gets the item at the head.
use native.Mathlib.Decide.{dec_lt}
use structured_chaos.Prelude.{
  ℕ, zero, suc, ◌<◌, ◌≡◌, ◌≢◌, ◌⊎◌, inl, inr, refl, sym, ap, ◌∙◌, subst, true, some, eq_of_some,
  arith, add_size,
}
use structured_chaos.Threading.RingQueue.{
  Sizes, slot_of, granule_of, lap_of, placed, Pop, not_won, won, moved, emptied, last, discards,
  turns_lap, done, idle, at_head, saw_lap, saw_item, Queue, Step, takes_tail, finds_lap, constructs,
  sets_state, reads_head, finds_old_lap, sees_lap, finds_empty, sees_item, loses, wins, moves_out,
  clears_state, counts, resets_pops, discards_memory, turns, Reach, later, count_pop, look_goes,
  pop_goes,
}
use structured_chaos.Threading.RingQueue.Geometry.{Fits}
use structured_chaos.Threading.RingQueue.Counting.{not_won_of_rank, push_rank, pop_rank}
use structured_chaos.Threading.RingQueue.Pushing.{served_of}
use structured_chaos.Threading.RingQueue.Safety.{Reach-Inv, storage-Right}
use structured_chaos.Threading.RingQueue.Alone.{
  Own, UnderWay, Ends, ended, goes, Holds, look_left, pop_left, Looking, Holding, Place, left, Goes,
  not_quiet, not_free, held, looks_on, holds_on, counts_on, looked_at, lapped_at, found_at,
}

module _ (z : Sizes) (fits : Fits z) (t p x : ℕ) where
  -- The item of the call, if it won.
  moved_right :
      (q : Queue) (o y : ℕ)
      → Reach z q
      → Holding z t p x q
      → (q.calls o).pop ≡ won
      → o ≡ p
      → q.storage (slot_of z o) ≡ some y
      → y ≡ x
  moved_right q o y r h e own s =
      let (_, right) = storage-Right fits r o in
      eq_of_some (sym s ∙ right e) ∙ ap q.item own ∙ h.item

  -- A look at the item wins the head.
  wins_on :
      (q : Queue) (u o : ℕ)
      → Looking z t p x q
      → q.looks u ≡ saw_item o
      → u ≡ t
      → Goes z t p x q (look_goes u idle (pop_goes o won (record q { head = add_size o 1 })))
  wins_on q u o k e own =
      let at_p = found_at z t p x q u o k own e in
      let r = look_goes u idle (pop_goes o won (record q { head = add_size o 1 })) in
      let quiet : r.looks t ≡ idle = ground arith in
      let here : (r.calls p).pop ≡ won = ground arith in
      let was : look_left (q.looks t) ≡ 1 = ap look_left (ap q.looks (sym own) ∙ e) in
      let free = ap pop_left k.free in
      (
        inr (record { quiet = quiet; holds = rw (here) tt; item = k.item }),
        rw (quiet, here) (omega arith),
      )

  -- Each access of the call leads on.
  Step-Goes :
      (q r : Queue)
      → Reach z q
      → Place z t p x q
      → (st : Step z q r) → Own t p st
      → Goes z t p x q r
  Step-Goes q r reach place (takes_tail y l) own = elim own [ ]
  Step-Goes q r reach place (finds_lap o e l) own = elim own [ ]
  Step-Goes q r reach place (constructs o e) own = elim own [ ]
  Step-Goes q r reach place (sets_state o e) own = elim own [ ]
  Step-Goes q r reach place (reads_head u e) own = elim own [ ]
  Step-Goes q r reach place (loses u e) own = elim own [ ]
  Step-Goes q r reach (inr h) (finds_old_lap u e l) own =
      absurd (not_quiet z t p x q u h e own (omega arith))
  Step-Goes q r reach (inl k) (finds_old_lap u {p = o} e l) own =
      let at_p = looked_at z t p x q u o k own e in
      absurd (l (subst (λ j. q.laps (granule_of z j) ≡ lap_of z j) (sym at_p) k.lap))
  Step-Goes q r reach (inr h) (sees_lap u e l) own =
      absurd (not_quiet z t p x q u h e own (omega arith))
  Step-Goes q r reach (inl k) (sees_lap u {p = o} e l) own =
      let at_p = looked_at z t p x q u o k own e in
      looks_on z t p x q u o (saw_lap o) k own at_p (inl (ap saw_lap at_p))
        (omega (arith, ap look_left e))
  Step-Goes q r reach (inr h) (finds_empty u e l) own =
      absurd (not_quiet z t p x q u h e own (omega arith))
  Step-Goes q r reach (inl k) (finds_empty u {p = o} e l) own =
      let at_p = lapped_at z t p x q u o k own e in
      absurd (k.full (subst (λ j. q.states (slot_of z j) ≡ 0) at_p l))
  Step-Goes q r reach (inr h) (sees_item u e l) own =
      absurd (not_quiet z t p x q u h e own (omega arith))
  Step-Goes q r reach (inl k) (sees_item u {p = o} e l) own =
      let at_p = lapped_at z t p x q u o k own e in
      looks_on z t p x q u o (saw_item o) k own at_p (inr (ap saw_item at_p))
        (omega (arith, ap look_left e))
  Step-Goes q r reach (inr h) (wins u e s) own =
      absurd (not_quiet z t p x q u h e own (omega arith))
  Step-Goes q r reach (inl k) (wins u {p = o} e s) own = wins_on q u o k e own
  Step-Goes q r reach (inl k) (moves_out o e s) own =
      absurd (not_free z t p x q o k e own (omega arith))
  Step-Goes q r reach (inr h) (moves_out o {x = y} e s) own =
      let same = moved_right q o y reach h e own s in
      let was = ap pop_left (ap (λ j. (q.calls j).pop) (sym own) ∙ e) in
      holds_on z t p x q _ h refl refl (ground arith) (ground arith)
  Step-Goes q r reach (inl k) (clears_state o e) own =
      absurd (not_free z t p x q o k e own (omega arith))
  Step-Goes q r reach (inr h) (clears_state o e) own =
      let same = held z t p x q o h e own in
      let was = ap pop_left (ap (λ j. (q.calls j).pop) (sym own) ∙ e) in
      holds_on z t p x q _ h refl refl (ground arith) (ground arith)
  Step-Goes q r reach (inl k) (counts o e) own = absurd (not_free z t p x q o k e own (omega arith))
  Step-Goes q r reach (inr h) (counts o {x = y} e) own =
      let same : y ≡ x = held z t p x q o h e own in
      subst (λ j. Goes z t p x q (count_pop z j y q)) (sym own)
        (subst (λ v. Goes z t p x q (count_pop z p v q)) (sym same)
          (counts_on z t p x q h (ap (λ j. (q.calls j).pop) (sym own) ∙ e ∙ ap emptied same)))
  Step-Goes q r reach (inl k) (resets_pops o e) own =
      absurd (not_free z t p x q o k e own (omega arith))
  Step-Goes q r reach (inr h) (resets_pops o e) own =
      let same = held z t p x q o h e own in
      let was = ap pop_left (ap (λ j. (q.calls j).pop) (sym own) ∙ e) in
      holds_on z t p x q _ h refl refl (ground arith) (ground arith)
  Step-Goes q r reach (inl k) (discards_memory o cleared e) own =
      absurd (not_free z t p x q o k e own (omega arith))
  Step-Goes q r reach (inr h) (discards_memory o cleared e) own =
      let same = held z t p x q o h e own in
      let was = ap pop_left (ap (λ j. (q.calls j).pop) (sym own) ∙ e) in
      holds_on z t p x q _ h refl refl (ground arith) (ground arith)
  Step-Goes q r reach (inl k) (turns o e) own = absurd (not_free z t p x q o k e own (omega arith))
  Step-Goes q r reach (inr h) (turns o e) own =
      let same = held z t p x q o h e own in
      let was = ap pop_left (ap (λ j. (q.calls j).pop) (sym own) ∙ e) in
      holds_on z t p x q _ h refl refl (ground arith) (ground arith)

  -- What the call can do next.
  abbrev Next : Queue → Type 0
  Next q = (r : Queue) × (st : Step z q r) × Own t p st

  held-Next :
      (q : Queue) (b : Pop)
      → Reach z q
      → (q.calls p).pop ≡ b
      → Holds x b
      → ((q.calls p).pop ≡ done x) ⊎ (UnderWay t p q × Next q)
  held-Next q not_won reach e h = elim h [ ]
  held-Next q won reach e h =
      let (_, right) = storage-Right fits reach p in
      inr (inr (λ n. absurd (ground arith)), (_, moves_out p e (right e), refl))
  held-Next q (moved y) reach e h =
      inr (inr (λ n. absurd (ground arith)), (_, clears_state p e, refl))
  held-Next q (emptied y) reach e h = inr (inr (λ n. absurd (ground arith)), (_, counts p e, refl))
  held-Next q (last y) reach e h =
      inr (inr (λ n. absurd (ground arith)), (_, resets_pops p e, refl))
  held-Next q (discards y) reach e h =
      inr (inr (λ n. absurd (ground arith)), (_, discards_memory p (λ i. true) e, refl))
  held-Next q (turns_lap y) reach e h = inr (inr (λ n. absurd (ground arith)), (_, turns p e, refl))
  held-Next q (done y) reach e h = inl (e ∙ ap done h)

  Place-Next :
      (q : Queue)
      → Reach z q
      → Place z t p x q
      → ((q.calls p).pop ≡ done x) ⊎ (UnderWay t p q × Next q)
  Place-Next q reach (inr h) = held-Next q (q.calls p).pop reach refl h.holds
  Place-Next q reach (inl k) = elim k.look [
    | inl e ↦ inr (inl (λ n. absurd (ground arith)), (_, sees_lap t e k.lap, refl))
    | inr (inl e) ↦ inr (inl (λ n. absurd (ground arith)), (_, sees_item t e k.full, refl))
    | inr (inr e) ↦ inr (inl (λ n. absurd (ground arith)), (_, wins t e k.head, refl))
  ]

  place-Ends :
      (n : ℕ) (q : Queue) → Reach z q → Place z t p x q → left z t p x q < n → Ends z t p x q
  place-Ends zero q reach place l = absurd (omega arith)
  place-Ends (suc n) q reach place l = elim (Place-Next q reach place) [
    | inl over ↦ ended over
    | inr (under_way, next) ↦ goes under_way next (λ r st own.
        let (place', less) = Step-Goes q r reach place st own in
        place-Ends n r (later reach st) place' (omega arith))
  ]

-- If the push at the head has placed its item, a call of tryPop that read that head gets the
-- item, as long as only its own thread does anything: whichever access the call makes next, it
-- goes on, it never returns without an item, and after finitely many accesses, those of release
-- included, it has returned the item pushed at the head. Its compare-exchange does not fail
-- without a reason; the state is one that pushes and pops lead to, fewer than 2^64 items are
-- pushed and the granules split the ring evenly.
pub head-Ends :
    {z : Sizes} {q : Queue}
    → Fits z
    → Reach z q
    → (t : ℕ) → q.looks t ≡ idle
    → (q.calls q.head).push ≡ placed
    → Ends z t q.head (q.item q.head) (look_goes t (at_head q.head) q)
head-Ends {z} {q} fits r t i e =
    let p = q.head in
    let inv = Reach-Inv fits r in
    let ok = inv.positions p in
    let free : pop_rank (q.calls p).pop ≡ 0 = elim (dec_lt 0 (pop_rank (q.calls p).pop)) [
      | yes l ↦ absurd (omega (arith, ok.won_below l))
      | no n ↦ omega arith
    ] in
    let served = served_of z q inv p (omega (arith, ap push_rank e)) (omega arith) in
    let (st, _) = inv.slots p served in
    let not_yet : (q.calls p).pop ≡ not_won = not_won_of_rank (q.calls p).pop free in
    let full : q.states (slot_of z p) ≢ 0 = λ o. omega (arith, rw (e, not_yet) at st) in
    let start = look_goes t (at_head p) q in
    place-Ends z fits t p (q.item p) (suc (left z t p (q.item p) start)) start
      (later r (reads_head t i))
      (inl (record {
        look = inl (ground arith);
        head = refl;
        free = not_yet;
        lap = served;
        full = full;
        item = refl;
      }))
      (omega arith)
