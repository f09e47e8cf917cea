-- ===== src/Ecs/Commands/Applying/Pages.antt =====
-- `CommandApplier::applySpread` of scheduler.hpp: the changes page by page, in whatever order the threads
-- come to the pages. What `PageSort` gives is a parameter: the pages, and the changes of each in order.
use structured_chaos.Prelude.{
  ℕ, ◌≡◌, ◌≢◌, sym, ap, ◌∙◌, Bool, true, false, Bool-cases, inl, inr, List, [], ◌∷◌, All, All-map,
  ◌==◌, if◌then◌else◌, if_rule, arith,
}
use structured_chaos.Ecs.Entity.{index_of, page_of}
use structured_chaos.Ecs.Commands.{Change}
use structured_chaos.Ecs.Commands.Applying.{Setting, Columns, Applying, apply_page}
use structured_chaos.Ecs.Commands.Applying.Spec.{do_all}
use structured_chaos.Ecs.Commands.Applying.Order.{apply_page-do_all}
use structured_chaos.Ecs.Commands.Applying.Cells.{
  in_page, cell, cell_all, cell-do_all, cell_all-in_page, cell_all_none,
}

-- `applySpread`, with the pages in the order in which they are done.
unfoldable pub apply_spread :
    Setting → (ℕ → List Change) → List ℕ → Columns → (ℕ → ℕ → ℕ) → Applying
apply_spread w items [] d counts = apply_page w 0 [] d counts
apply_spread w items (p ∷ ps) d counts =
    let first = apply_page w p (items p) d counts in
    apply_spread w items ps first.columns first.counts

abbrev pub among : ℕ → List ℕ → Bool
among p [] = false
among p (x ∷ xs) = if p == x then true else among p xs

abbrev pub Distinct : List ℕ → Type 0
Distinct [] = Unit {0}
Distinct (x ∷ xs) = (among x xs ≡ false) × Distinct xs

-- What `PageSort` gives for the changes.
pub record IsSorted (w : Setting) (cs : List Change) (items : ℕ → List Change) (ps : List ℕ)
    : Type 0 where
  pub once : Distinct ps
  pub in_order : All (λ p. items p ≡ in_page p cs) ps
  pub every : All (λ c. w.valid c.entity ≡ true → among (page_of (index_of c.entity)) ps ≡ true) cs

module _ (w : Setting) (cs : List Change) (items : ℕ → List Change) (column index : ℕ) where
  in_page_All :
      (p : ℕ) (cs : List Change)
      → All (λ c. w.valid c.entity ≡ true → page_of (index_of c.entity) ≡ p) (in_page p cs)
  in_page_All p [] = tt
  in_page_All p (c ∷ cs) =
      if_rule (All (λ c. w.valid c.entity ≡ true → page_of (index_of c.entity) ≡ p))
        (page_of (index_of c.entity) == p) (λ h. (λ _. ground arith, in_page_All p cs))
        (λ _. in_page_All p cs)

  cell_page :
      (p : ℕ) (d : Columns) (counts : ℕ → ℕ → ℕ)
      → items p ≡ in_page p cs
      → cell (apply_page w p (items p) d counts).columns column index ≡ (
          if page_of index == p
          then cell_all w column index cs (cell d column index)
          else cell d column index)
  cell_page p d counts in_order = rw in_order (
      ap (λ e. cell e column index)
        (apply_page-do_all w p (in_page p cs) d counts (in_page_All p cs))
      ∙ cell-do_all w column index (in_page p cs) d
      ∙ cell_all-in_page w column index p cs (cell d column index))

  cell_spread :
      (ps : List ℕ) (d : Columns) (counts : ℕ → ℕ → ℕ)
      → Distinct ps
      → All (λ p. items p ≡ in_page p cs) ps
      → cell (apply_spread w items ps d counts).columns column index ≡ (
          if among (page_of index) ps
          then cell_all w column index cs (cell d column index)
          else cell d column index)
  unfolding apply_spread do_all
  cell_spread [] d counts h o = ap (λ e. cell e column index) (apply_page-do_all w 0 [] d counts tt)
  cell_spread (p ∷ ps) d counts h o =
      let first = apply_page w p (items p) d counts in
      let one = cell_page p d counts o.0 in
      let rest = cell_spread ps first.columns first.counts h.1 o.1 in
      elim (Bool-cases (page_of index == p)) [
        | inl k ↦
            let e : page_of index ≡ p = ground arith in
            let out : among (page_of index) ps ≡ false = rw e h.0 in
            rw (k) (rest ∙ rw (out) (rw (k) at one))
        | inr k ↦ rw (k) (
            rest
            ∙ ap (λ x. if among (page_of index) ps then cell_all w column index cs x else x)
                (rw (k) at one))
      ]

-- spread
pub apply_spread-do_all :
    (w : Setting) (cs : List Change) (items : ℕ → List Change) (ps : List ℕ) (d : Columns)
    (counts : ℕ → ℕ → ℕ)
    → IsSorted w cs items ps
    → (column index : ℕ)
    → cell (apply_spread w items ps d counts).columns column index
      ≡ cell (do_all w cs d) column index
apply_spread-do_all w cs items ps d counts sorted column index =
    cell_spread w cs items column index ps d counts sorted.once sorted.in_order
    ∙ elim (Bool-cases (among (page_of index) ps)) [
      | inl h ↦ rw (h) (sym (cell-do_all w column index cs d))
      | inr h ↦
          let none_here =
            All-map {Q = λ c. w.valid c.entity ≡ true → page_of (index_of c.entity) ≢ page_of index}
              (λ c k v e. absurd (ground (arith, k v, ap (λ p. among p ps) e))) cs sorted.every in
          rw (h) (
            sym (cell_all_none w column index cs (cell d column index) none_here)
            ∙ sym (cell-do_all w column index cs d))
    ]
