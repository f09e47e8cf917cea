-- ===== src/Ecs/Commands/Recording.antt =====
-- What `CommandList` of scheduler.hpp notes of the pages of its changes, and what `CommandApplier` makes of it.
use structured_chaos.Prelude.{
  ℕ, ◌≡◌, ◌≢◌, refl, ap, ==_iff, Bool, true, false, not, Bool-cases, inl, inr, List, [], ◌∷◌, ◌++◌,
  List-cases, length, length-append, All, All-append, ◌==◌, if_rule, arith,
}
use structured_chaos.Ecs.Entity.{index_of, page_of}
use structured_chaos.Ecs.Commands.{
  Change, CommandList, no_page, note, push_back, pop_back, record_with,
}

abbrev pub InPage : ℕ → List Change → Type 0
InPage p = All (λ c. page_of (index_of c.entity) ≡ p)

-- The page that a list notes is that of all its changes, unless it is NO_PAGE.
abbrev pub Noted : CommandList → Type 0
Noted l = l.page ≢ no_page → InPage l.page l.changes

note-Noted : (c : Change) (l : CommandList) → Noted l → Noted (note c.entity (push_back c l))
unfolding note
note-Noted c l ok = elim (Bool-cases (length (l.changes ++ (c ∷ [])) == 1)) [
  | inl one ↦
      let empty : length l.changes ≡ 0 = omega (
        arith,
        length-append l.changes (c ∷ []),
        (==_iff (length (l.changes ++ (c ∷ []))) 1).0 one,
      ) in
      rw (one) (λ _. elim (List-cases l.changes) [
        | inl e ↦ rw (e) (refl, tt)
        | inr (x, rest, e) ↦ absurd (omega (arith, ap length e))
      ])
  | inr many ↦ elim (Bool-cases (page_of (index_of c.entity) == l.page)) [
    | inl same ↦ rw (many, same) (λ n. All-append _ l.changes (c ∷ []) (ok n) (ground arith, tt))
    | inr other ↦ rw (many, other) (λ n. absurd (n refl))
  ]
]

pop_back-push : (xs : List Change) (c : Change) → pop_back (xs ++ (c ∷ [])) ≡ xs
unfolding pop_back
pop_back-push [] c = refl
pop_back-push (x ∷ []) c = refl
pop_back-push (x ∷ y ∷ xs) c = ap (λ t. x ∷ t) (pop_back-push (y ∷ xs) c)

note-changes : (entity : ℕ) (l : CommandList) → (note entity l).changes ≡ l.changes
unfolding note
note-changes entity l =
    if_rule (λ (r : CommandList). r.changes ≡ l.changes) (length l.changes == 1) (λ _. refl)
      (λ _.
        if_rule (λ (r : CommandList). r.changes ≡ l.changes) (page_of (index_of entity) == l.page)
          (λ _. refl) (λ _. refl))

-- Recording a change keeps what is noted; if its value cannot be made, the list is as before.
pub record_with-Noted :
    (c : Change) (made : Bool) (l : CommandList)
    → Noted l
    → Noted (record_with c made l).list
      × ((record_with c made l).threw ≡ not made)
      × (made ≡ false → (record_with c made l).list ≡ l)
      × (made ≡ true → (record_with c made l).list.changes ≡ l.changes ++ (c ∷ []))
unfolding record_with note
record_with-Noted c true l ok = (
  note-Noted c l ok,
  refl,
  λ e. absurd (ground arith),
  λ _. note-changes c.entity (push_back c l),
)
record_with-Noted c false l ok =
    let back = pop_back-push l.changes c in
    let whole : record (push_back c l) { changes = pop_back (l.changes ++ (c ∷ [])) } ≡ l =
      ap (λ (xs : List Change). record l { changes = xs }) back in
    (λ n. rw (back) (ok n), refl, λ _. whole, λ e. absurd (ground arith))
