-- ===== src/Ecs/Commands/Destroying.antt =====
-- `CommandApplier::runDestroyHooks` of scheduler.hpp: the onRemove hooks of the entities to destroy.
use native.Mathlib.Decide.{ℕ_discrete, dec_lt}
use structured_chaos.Prelude.{
  ℕ, ◌+◌, ◌≤◌, ◌<◌, ◌≡◌, ◌≢◌, refl, ap, ◌∙◌, Bool, true, false, Bool-cases, inl, inr, List, [], ◌∷◌,
  ◌++◌, leb, ◌==◌, if◌then◌else◌, if_rule, arith,
}
use structured_chaos.Ecs.Entity.{index_of}
use structured_chaos.Ecs.Commands.{CommandList}

-- `m_destroyed`, of all lists
abbrev pub all_destroyed : List CommandList → List ℕ
all_destroyed [] = []
all_destroyed (l ∷ ls) = l.destroyed ++ all_destroyed ls

unfoldable pub insert : ℕ → List ℕ → List ℕ
insert e [] = e ∷ []
insert e (x ∷ xs) =
    let rest = insert e xs in if leb (index_of e) (index_of x) then e ∷ x ∷ xs else x ∷ rest

-- The sort by index, as one of the orders that it may give: those of one index stay in their order.
unfoldable pub sort : List ℕ → List ℕ
unfolding insert
sort [] = []
sort (e ∷ es) = insert e (sort es)

-- `unique`: each run of equal entities as one.
unfoldable pub unique_after : ℕ → List ℕ → List ℕ
unique_after e [] = []
unique_after e (x ∷ xs) =
    let same = unique_after e xs in
    let other = unique_after x xs in if e == x then same else x ∷ other

unfoldable pub unique : List ℕ → List ℕ
unfolding unique_after
unique [] = []
unique (x ∷ xs) = x ∷ unique_after x xs

unfoldable pub keep_valid : (ℕ → Bool) → List ℕ → List ℕ
keep_valid valid [] = []
keep_valid valid (e ∷ es) = let rest = keep_valid valid es in if valid e then e ∷ rest else rest

-- The entities whose hooks run, in their order.
abbrev pub run_destroy_hooks : (ℕ → Bool) → List ℕ → List ℕ
run_destroy_hooks valid es = keep_valid valid (unique (sort es))

-- How often an entity is in a list.
abbrev pub times : ℕ → List ℕ → ℕ
times e [] = 0
times e (x ∷ xs) = (if e == x then 1 else 0) + times e xs

-- Two entities of the list that share their index are the same.
abbrev pub OnePerIndex : List ℕ → Type 0
OnePerIndex es = (a b : ℕ) → 0 < times a es → 0 < times b es → index_of a ≡ index_of b → a ≡ b

insert-times : (a e : ℕ) (xs : List ℕ) → times a (insert e xs) ≡ times a (e ∷ xs)
unfolding insert
insert-times a e [] = refl
insert-times a e (x ∷ xs) =
    if_rule (λ (ys : List ℕ). times a ys ≡ times a (e ∷ x ∷ xs)) (leb (index_of e) (index_of x))
      (λ _. refl) (λ _. omega (arith, insert-times a e xs))

sort-times : (a : ℕ) (es : List ℕ) → times a (sort es) ≡ times a es
unfolding sort
sort-times a [] = refl
sort-times a (e ∷ es) =
    insert-times a e (sort es) ∙ ap (λ n. (if a == e then 1 else 0) + n) (sort-times a es)

-- The indices do not fall.
abbrev Rising : List ℕ → Type 0
Rising [] = Unit {0}
Rising (x ∷ xs) = ((b : ℕ) → 0 < times b xs → index_of x ≤ index_of b) × Rising xs

insert-Rising : (e : ℕ) (xs : List ℕ) → Rising xs → Rising (insert e xs)
unfolding insert
insert-Rising e [] h = (λ b l. absurd (omega arith), tt)
insert-Rising e (x ∷ xs) h =
    if_rule Rising (leb (index_of e) (index_of x))
      (λ k. (
        λ b l. elim (ℕ_discrete b x) [
          | yes s ↦ let same = ap index_of s in ground arith
          | no n ↦ let above = h.0 b (ground arith) in ground arith
        ],
        h,
      ))
      (λ k. (
        λ b l. elim (ℕ_discrete b e) [
          | yes s ↦ let same = ap index_of s in ground arith
          | no n ↦ h.0 b (ground (arith, insert-times b e xs))
        ],
        insert-Rising e xs h.1,
      ))

sort-Rising : (es : List ℕ) → Rising (sort es)
unfolding sort
sort-Rising [] = tt
sort-Rising (e ∷ es) = insert-Rising e (sort es) (sort-Rising es)

-- After its first entity, a rising list with one entity per index is stripped of that entity only.
unique_after-times :
    (a e : ℕ) (xs : List ℕ)
    → Rising (e ∷ xs)
    → OnePerIndex (e ∷ xs)
    → times a (unique_after e xs) ≡ (if a == e then 0 else if times a xs == 0 then 0 else 1)
unfolding unique_after
unique_after-times a e [] r o = ground arith
unique_after-times a e (x ∷ xs) r o =
    let below : OnePerIndex (x ∷ xs) = λ b c l m i. o b c (ground arith) (ground arith) i in
    elim (Bool-cases (e == x)) [
      | inl same ↦
          let k : e ≡ x = ground arith in
          let rest =
            unique_after-times a e xs (λ b l. r.0 b (ground arith), r.1.1)
              (λ b c l m i. o b c (ground arith) (ground arith) i) in
          rw (same) (rest ∙ ground arith)
      | inr other ↦
          let rest = unique_after-times a x xs r.1 below in
          let gone : times e xs ≡ 0 = elim (dec_lt 0 (times e xs)) [
            | no n ↦ omega arith
            | yes l ↦
                let up = r.0 x (ground arith) in
                let down = r.1.0 e l in
                absurd (ground (arith, o e x (ground arith) (ground arith) (omega arith)))
          ] in
          rw (other) (
            ap (λ n. (if a == x then 1 else 0) + n) rest ∙ elim (Bool-cases (a == e)) [
              | inl s ↦ let k : a ≡ e = ground arith in rw (k, gone) (ground arith)
              | inr s ↦ ground arith
            ])
    ]

unique-times :
    (a : ℕ) (xs : List ℕ)
    → Rising xs
    → OnePerIndex xs
    → times a (unique xs) ≡ (if times a xs == 0 then 0 else 1)
unfolding unique
unique-times a [] r o = refl
unique-times a (x ∷ xs) r o =
    ap (λ n. (if a == x then 1 else 0) + n) (unique_after-times a x xs r o) ∙ ground arith

keep_valid-times :
    (valid : ℕ → Bool) (a : ℕ) (es : List ℕ)
    → times a (keep_valid valid es) ≡ (if valid a then times a es else 0)
unfolding keep_valid
keep_valid-times valid a [] = if_rule (λ n. 0 ≡ n) (valid a) (λ _. refl) (λ _. refl)
keep_valid-times valid a (e ∷ es) =
    let rest = keep_valid-times valid a es in
    elim (ℕ_discrete a e) [
      | yes s ↦ elim (Bool-cases (valid e)) [
        | inl v ↦ let k : valid a ≡ true = rw s v in rw (v) (ground arith)
        | inr v ↦ let k : valid a ≡ false = rw s v in rw (v) (ground arith)
      ]
      | no n ↦
          if_rule (λ (ys : List ℕ). times a ys ≡ (if valid a then times a (e ∷ es) else 0))
            (valid e) (λ v. ground arith) (λ v. ground arith)
    ]

-- The onRemove hooks run once for each entity to destroy that exists, however often it was
-- recorded, and for no other, if no two different entities that were recorded share an index.
pub run_destroy_hooks-Once :
    (valid : ℕ → Bool) (es : List ℕ) (a : ℕ)
    → OnePerIndex es
    → times a (run_destroy_hooks valid es)
      ≡ (if valid a then if times a es == 0 then 0 else 1 else 0)
run_destroy_hooks-Once valid es a o =
    let same = sort-times a es in
    let one : OnePerIndex (sort es) =
      λ b c l m i. o b c (omega (arith, sort-times b es)) (omega (arith, sort-times c es)) i in
    keep_valid-times valid a (unique (sort es))
    ∙ ap (λ n. if valid a then n else 0)
        (unique-times a (sort es) (sort-Rising es) one ∙ ap (λ n. if n == 0 then 0 else 1) same)

-- If an entity that exists is recorded twice with an older entity of the same index, which no
-- longer exists, between, and the sort by index leaves those of one index in their order, the
-- onRemove hooks of the entity run twice.
pub run_destroy_hooks-twice :
    (valid : ℕ → Bool) (e stale : ℕ)
    → index_of e ≡ index_of stale
    → e ≢ stale
    → valid e ≡ true
    → valid stale ≡ false
    → run_destroy_hooks valid (e ∷ stale ∷ e ∷ []) ≡ e ∷ e ∷ []
unfolding sort insert unique unique_after keep_valid
run_destroy_hooks-twice valid e stale i n v d =
    let a : leb (index_of stale) (index_of e) ≡ true = ground arith in
    let b : leb (index_of e) (index_of stale) ≡ true = ground arith in
    let c : (e == stale) ≡ false = ground arith in
    let f : (stale == e) ≡ false = ground arith in
    rw (a) (rw (b) (rw (c) (rw (f) (rw (v, d) refl))))
