-- ===== src/Ecs/Commands/Applying/Cells.antt =====
-- What changes of scheduler.hpp, done one by one, do to one component.
use structured_chaos.Prelude.{
  ℕ, ◌≡◌, ◌≢◌, refl, sym, ap, ◌∙◌, subst, Bool, true, false, ◌&&◌, Bool-cases, inl, inr, Option,
  none, some, Option-cases, List, [], ◌∷◌, All, ◌==◌, if◌then◌else◌, if_rule, arith,
}
use structured_chaos.Ecs.Entity.{index_of, page_of}
use structured_chaos.Ecs.Commands.{Change, Finish, erases, emplaces, modifies}
use structured_chaos.Ecs.Commands.Applying.{Setting, Columns, set_at, touch}
use structured_chaos.Ecs.Commands.Applying.Spec.{do_finish, do_change, do_all}

-- The changes of one page, in their order.
abbrev pub in_page : ℕ → List Change → List Change
in_page p [] = []
in_page p (c ∷ cs) = if page_of (index_of c.entity) == p then c ∷ in_page p cs else in_page p cs

-- What a change does to one component.
unfoldable pub finish_cell : Finish → Option ℕ → Option ℕ
finish_cell erases o = none
finish_cell (emplaces replace v) none = some v
finish_cell (emplaces replace v) (some o) = if replace then some v else some o
finish_cell (modifies tracked g) none = none
finish_cell (modifies tracked g) (some o) = some (g o)

-- A component, as column and index say.
abbrev pub cell : Columns → ℕ → ℕ → Option ℕ
cell d column index = d.table column index

set_at_here :
    {A : Type 0} (f : ℕ → ℕ → A) (column index : ℕ) (a : A)
    → set_at f column index a column index ≡ a
set_at_here f column index a =
    let c : (column == column) ≡ true = ground arith in
    let i : (index == index) ≡ true = ground arith in rw (c, i) refl

set_at_other :
    {A : Type 0} (f : ℕ → ℕ → A) (column index : ℕ) (a : A) (c i : ℕ)
    → ((column == c) && (index == i)) ≡ false
    → set_at f column index a c i ≡ f c i
set_at_other f column index a c i h = elim (Bool-cases (column == c)) [
  | inr o ↦ rw (o) refl
  | inl s ↦
      let e : column ≡ c = ground arith in
      let o : (index == i) ≡ false = rw (s) at h in rw (s, o) (rw e refl)
]

touch-cell :
    (w : Setting) (column index : ℕ) (d : Columns) (c i : ℕ)
    → cell (touch w column index d) c i ≡ cell d c i
touch-cell w column index d c i =
    if_rule (λ (e : Columns). cell e c i ≡ cell d c i) (w.tracks column) (λ _. refl) (λ _. refl)

do_finish-here :
    (w : Setting) (f : Finish) (entity column : ℕ) (d : Columns)
    → cell (do_finish w f entity column d) column (index_of entity)
      ≡ finish_cell f (d.table column (index_of entity))
unfolding do_finish finish_cell
do_finish-here w erases entity column d =
    let t = set_at_here d.table column (index_of entity) none in
    elim (Option-cases (d.table column (index_of entity))) [
      | inl e ↦ rw (do_finish, finish_cell, e) e
      | inr (v, e) ↦ elim (Bool-cases (w.remove_hooked column)) [
        | inl k ↦ rw (do_finish, finish_cell, e, k) t
        | inr k ↦ rw (do_finish, finish_cell, e, k) t
      ]
    ]
do_finish-here w (emplaces r v) entity column d =
    let made =
      touch-cell w column (index_of entity)
        (record d { table = set_at d.table column (index_of entity) (some v) }) column
        (index_of entity)
      ∙ set_at_here d.table column (index_of entity) (some v) in
    elim (Option-cases (d.table column (index_of entity))) [
      | inl e ↦ elim (Bool-cases (w.add_hooked column)) [
        | inl k ↦ rw (do_finish, finish_cell, e, k) made
        | inr k ↦ rw (do_finish, finish_cell, e, k) made
      ]
      | inr (o, e) ↦ elim (Bool-cases r) [
        | inl k ↦ rw (do_finish, finish_cell, e, k) made
        | inr k ↦ rw (do_finish, finish_cell, e, k) e
      ]
    ]
do_finish-here w (modifies tracked g) entity column d =
    elim (Option-cases (d.table column (index_of entity))) [
      | inl e ↦ rw (do_finish, finish_cell, e) e
      | inr (v, e) ↦ elim (Bool-cases tracked) [
        | inl k ↦
            rw (do_finish, finish_cell, e, k)
              (touch-cell w column (index_of entity)
                  (record d { table = set_at d.table column (index_of entity) (some (g v)) }) column
                  (index_of entity)
                ∙ set_at_here d.table column (index_of entity) (some (g v)))
        | inr k ↦
            rw (do_finish, finish_cell, e, k)
              (set_at_here d.table column (index_of entity) (some (g v)))
      ]
    ]

-- A change elsewhere leaves a component alone.
do_finish-other :
    (w : Setting) (f : Finish) (entity column : ℕ) (d : Columns) (c i : ℕ)
    → ((column == c) && (index_of entity == i)) ≡ false
    → cell (do_finish w f entity column d) c i ≡ cell d c i
unfolding do_finish
do_finish-other w erases entity column d c i h =
    let t = set_at_other d.table column (index_of entity) none c i h in
    elim (Option-cases (d.table column (index_of entity))) [
      | inl e ↦ rw (do_finish, e) refl
      | inr (v, e) ↦ elim (Bool-cases (w.remove_hooked column)) [
        | inl k ↦ rw (do_finish, e, k) t
        | inr k ↦ rw (do_finish, e, k) t
      ]
    ]
do_finish-other w (emplaces r v) entity column d c i h =
    let made =
      touch-cell w column (index_of entity)
        (record d { table = set_at d.table column (index_of entity) (some v) }) c i
      ∙ set_at_other d.table column (index_of entity) (some v) c i h in
    elim (Option-cases (d.table column (index_of entity))) [
      | inl e ↦ elim (Bool-cases (w.add_hooked column)) [
        | inl k ↦ rw (do_finish, e, k) made
        | inr k ↦ rw (do_finish, e, k) made
      ]
      | inr (o, e) ↦ elim (Bool-cases r) [
        | inl k ↦ rw (do_finish, e, k) made
        | inr k ↦ rw (do_finish, e, k) refl
      ]
    ]
do_finish-other w (modifies tracked g) entity column d c i h =
    elim (Option-cases (d.table column (index_of entity))) [
      | inl e ↦ rw (do_finish, e) refl
      | inr (v, e) ↦ elim (Bool-cases tracked) [
        | inl k ↦
            rw (do_finish, e, k)
              (touch-cell w column (index_of entity)
                  (record d { table = set_at d.table column (index_of entity) (some (g v)) }) c i
                ∙ set_at_other d.table column (index_of entity) (some (g v)) c i h)
        | inr k ↦
            rw (do_finish, e, k) (set_at_other d.table column (index_of entity) (some (g v)) c i h)
      ]
    ]

module _ (w : Setting) (column index : ℕ) where
  abbrev concerns : Change → Bool
  concerns c = w.valid c.entity && ((c.column == column) && (index_of c.entity == index))

  abbrev cell_change : Change → Option ℕ → Option ℕ
  cell_change c x = if concerns c then finish_cell c.finish x else x

  unfoldable pub cell_all : List Change → Option ℕ → Option ℕ
  unfolding finish_cell
  cell_all [] x = x
  cell_all (c ∷ cs) x = cell_all cs (cell_change c x)

  -- A change does to a component what it does to the columns there.
  cell-do_change :
      (c : Change) (d : Columns)
      → cell (do_change w c d) column index ≡ cell_change c (cell d column index)
  unfolding do_change
  cell-do_change c d = elim (Bool-cases (w.valid c.entity)) [
    | inr n ↦ rw (do_change, n) refl
    | inl y ↦ elim (Bool-cases ((c.column == column) && (index_of c.entity == index))) [
      | inr o ↦ rw (do_change, y, o) (do_finish-other w c.finish c.entity c.column d column index o)
      | inl h ↦
          let e : c.column ≡ column = ground arith in
          let k : index_of c.entity ≡ index = ground arith in
          rw (do_change, y, h)
            (subst
              (λ b.
                cell (do_finish w c.finish c.entity c.column d) b index
                ≡ finish_cell c.finish (d.table b index))
              e
              (subst
                (λ j.
                  cell (do_finish w c.finish c.entity c.column d) c.column j
                  ≡ finish_cell c.finish (d.table c.column j))
                k (do_finish-here w c.finish c.entity c.column d)))
    ]
  ]

  pub cell-do_all :
      (cs : List Change) (d : Columns)
      → cell (do_all w cs d) column index ≡ cell_all cs (cell d column index)
  unfolding do_all cell_all
  cell-do_all [] d = refl
  cell-do_all (c ∷ cs) d = cell-do_all cs (do_change w c d) ∙ ap (cell_all cs) (cell-do_change c d)

  not_concerned :
      (c : Change) (x : Option ℕ)
      → (w.valid c.entity ≡ true → page_of (index_of c.entity) ≢ page_of index)
      → cell_change c x ≡ x
  not_concerned c x n = elim (Bool-cases (concerns c)) [
    | inr o ↦ rw (o) refl
    | inl h ↦
        let v : w.valid c.entity ≡ true = ground arith in
        let e : index_of c.entity ≡ index = ground arith in absurd (n v (ap page_of e))
  ]

  -- The changes of the page of a component are all that concern it.
  pub cell_all-in_page :
      (p : ℕ) (cs : List Change) (x : Option ℕ)
      → cell_all (in_page p cs) x ≡ (if page_of index == p then cell_all cs x else x)
  unfolding cell_all
  cell_all-in_page p [] x = if_rule (λ y. x ≡ y) (page_of index == p) (λ _. refl) (λ _. refl)
  cell_all-in_page p (c ∷ cs) x = elim (Bool-cases (page_of (index_of c.entity) == p)) [
    | inl h ↦ elim (Bool-cases (page_of index == p)) [
      | inl k ↦ rw (h, k) (cell_all-in_page p cs (cell_change c x) ∙ rw (k) refl)
      | inr k ↦
          let same = not_concerned c x (λ _ e. absurd (ground arith)) in
          rw (h, k) (cell_all-in_page p cs (cell_change c x) ∙ rw (k) same)
    ]
    | inr h ↦ elim (Bool-cases (page_of index == p)) [
      | inl k ↦
          let same = not_concerned c x (λ _ e. absurd (ground arith)) in
          rw (h, k) (cell_all-in_page p cs x ∙ rw (k) (ap (cell_all cs) (sym same)))
      | inr k ↦ rw (h, k) (cell_all-in_page p cs x ∙ rw (k) refl)
    ]
  ]

  -- What no page concerns stays.
  pub cell_all_none :
      (cs : List Change) (x : Option ℕ)
      → All (λ c. w.valid c.entity ≡ true → page_of (index_of c.entity) ≢ page_of index) cs
      → cell_all cs x ≡ x
  unfolding cell_all
  cell_all_none [] x h = refl
  cell_all_none (c ∷ cs) x h = ap (cell_all cs) (not_concerned c x h.0) ∙ cell_all_none cs x h.1
