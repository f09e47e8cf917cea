-- ===== src/Ecs/Commands/Apply.antt =====
-- `CommandApplier::apply` of scheduler.hpp for the changes of all lists: in order on one thread, or page by
-- page on several.
use structured_chaos.Prelude.{
  ℕ, ◌/◌, ◌^◌, ◌<◌, ◌≡◌, ◌≢◌, ap, subst, true, Bool-cases, inl, inr, List, [], ◌∷◌, ◌++◌,
  List-cases, length, ltb, leb, All, All-append, All-map, ◌==◌, if◌then◌else◌, if_rule, arith,
}
use structured_chaos.Ecs.Entity.{index_of, page_of, index_limit}
use structured_chaos.Ecs.Commands.{Change, CommandList, no_page, one_page_from, one_page}
use structured_chaos.Ecs.Commands.Recording.{InPage, Noted}
use structured_chaos.Ecs.Commands.Applying.{Setting, Columns, Applying, apply_page}
use structured_chaos.Ecs.Commands.Applying.Spec.{do_all}
use structured_chaos.Ecs.Commands.Applying.Order.{apply_page-do_all}
use structured_chaos.Ecs.Commands.Applying.Cells.{cell}
use structured_chaos.Ecs.Commands.Applying.Pages.{
  apply_spread, IsSorted, among, apply_spread-do_all,
}

abbrev pub page_count : ℕ
page_count = index_limit / 2 ^ 12

abbrev pub all_changes : List CommandList → List Change
all_changes [] = []
all_changes (l ∷ ls) = l.changes ++ all_changes ls

-- `pageOf`
unfoldable pub page_of_lists : List CommandList → ℕ
page_of_lists [] = no_page
page_of_lists (l ∷ ls) =
    let rest = page_of_lists ls in
    if length l.changes == 0 then rest else if ltb l.page page_count then l.page else no_page

abbrev pub first_page : List ℕ → ℕ
first_page [] = no_page
first_page (p ∷ ps) = p

-- The changes of `apply`, with what `PageSort` gives for them.
unfoldable pub apply_changes :
    Setting → (ℕ → List Change) → List ℕ → List CommandList → Columns → (ℕ → ℕ → ℕ) → Applying
unfolding page_of_lists
apply_changes w items ps lists d counts =
    if one_page lists
    then apply_page w (page_of_lists lists) (all_changes lists) d counts
    else if leb (length ps) 1
    then apply_page w (first_page ps) (all_changes lists) d counts
    else apply_spread w items ps d counts

one_page-InPage :
    (page : ℕ) (ls : List CommandList)
    → page ≢ no_page
    → one_page_from page ls ≡ true
    → All Noted ls
    → InPage page (all_changes ls)
unfolding one_page_from
one_page-InPage page [] n e h = tt
one_page-InPage page (l ∷ ls) n e h = elim (Bool-cases (length l.changes == 0)) [
  | inl none_here ↦ elim (List-cases l.changes) [
    | inl k ↦ rw (k) (one_page-InPage page ls n (rw (none_here) at e) h.1)
    | inr (x, rest, k) ↦ absurd (ground (arith, ap length k))
  ]
  | inr some_here ↦ elim (Bool-cases (l.page == no_page)) [
    | inl bad ↦ absurd (ground arith)
    | inr good ↦ elim (Bool-cases (page == no_page)) [
      | inl bad ↦ absurd (n (ground arith))
      | inr fine ↦ elim (Bool-cases (l.page == page)) [
        | inl same ↦
            let k : l.page ≡ page = ground arith in
            All-append _ l.changes (all_changes ls)
              (subst (λ p. InPage p l.changes) k (h.0 (λ b. ground arith)))
              (one_page-InPage page ls n
                (subst (λ p. one_page_from p ls ≡ true) k (rw (some_here, good, fine, same) at e))
                h.1)
        | inr other ↦ absurd (ground arith)
      ]
    ]
  ]
]

module _ (w : Setting)
    (in_pages : (e : ℕ) → w.valid e ≡ true → page_of (index_of e) < page_count) where
  -- If all changes are in one page, it is the one that is given.
  one_page-lists :
      (ls : List CommandList)
      → one_page ls ≡ true
      → All Noted ls
      → All
          (λ c. w.valid c.entity ≡ true → page_of (index_of c.entity) ≡ page_of_lists ls)
          (all_changes ls)
  unfolding one_page_from page_of_lists
  one_page-lists [] e h = tt
  one_page-lists (l ∷ ls) e h = elim (Bool-cases (length l.changes == 0)) [
    | inl none_here ↦ elim (List-cases l.changes) [
      | inl k ↦ rw (k) (one_page-lists ls (rw (none_here) at e) h.1)
      | inr (x, rest, k) ↦ absurd (ground (arith, ap length k))
    ]
    | inr some_here ↦ elim (Bool-cases (l.page == no_page)) [
      | inl bad ↦ absurd (ground arith)
      | inr good ↦
          let n : l.page ≢ no_page = λ b. ground arith in
          let all =
            All-append _ l.changes (all_changes ls) (h.0 n)
              (one_page-InPage l.page ls n (rw (some_here, good) at e) h.1) in
          rw (some_here) (
            All-map
              {Q = λ c.
                w.valid c.entity ≡ true
                → page_of (index_of c.entity) ≡ (if ltb l.page page_count then l.page else no_page)}
              (λ c k v. let below = in_pages c.entity v in ground arith)
              (l.changes ++ all_changes ls) all)
    ]
  ]

  -- CommandApplier leaves every component as if the changes of the lists were done one by one in
  -- the order of the lists, whether it does them on one thread or page by page in any order of the
  -- pages: if what each list notes of its pages is right, the sort gives each page once with its
  -- changes in order, and the entities that exist have an index below the limit.
  pub apply_changes-do_all :
      (items : ℕ → List Change) (ps : List ℕ) (lists : List CommandList) (d : Columns)
      (counts : ℕ → ℕ → ℕ)
      → All Noted lists
      → IsSorted w (all_changes lists) items ps
      → (column index : ℕ)
      → cell (apply_changes w items ps lists d counts).columns column index
        ≡ cell (do_all w (all_changes lists) d) column index
  unfolding apply_changes
  apply_changes-do_all items ps lists d counts noted sorted column index =
      let cs = all_changes lists in
      if_rule (λ (r : Applying). cell r.columns column index ≡ cell (do_all w cs d) column index)
        (one_page lists)
        (λ one.
          ap (λ (e : Columns). cell e column index)
            (apply_page-do_all w (page_of_lists lists) cs d counts
              (one_page-lists lists one noted)))
        (λ _.
          if_rule
            (λ (r : Applying). cell r.columns column index ≡ cell (do_all w cs d) column index)
            (leb (length ps) 1)
            (λ few.
              ap (λ (e : Columns). cell e column index)
                (apply_page-do_all w (first_page ps) cs d counts (
                  All-map
                    {Q = λ c. w.valid c.entity ≡ true → page_of (index_of c.entity) ≡ first_page ps}
                    (λ c k v. only ps few (page_of (index_of c.entity)) (k v)) cs sorted.every)))
            (λ _. apply_spread-do_all w cs items ps d counts sorted column index))
    where
      only :
          (ps : List ℕ) → leb (length ps) 1 ≡ true → (p : ℕ) → among p ps ≡ true → p ≡ first_page ps
      only [] few p e = absurd (ground arith)
      only (x ∷ []) few p e = ground arith
      only (x ∷ y ∷ ps) few p e = absurd (ground arith)
