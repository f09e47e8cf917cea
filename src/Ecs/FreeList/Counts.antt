-- ===== src/Ecs/FreeList/Counts.antt =====
-- The free list of entity.hpp keeps every index as often as it was given back and not yet taken: of any
-- weight of the indices, no operation loses any.
use structured_chaos.Prelude.{
  ℕ, zero, suc, ◌+◌, ◌-◌, ◌≤◌, ◌<◌, ◌≡◌, refl, sym, ap, ◌∙◌, inl, inr, false, List, [], ◌∷◌, ◌++◌,
  reverse, none, some, ltb, get_elem?, take, length, arith, All, length-append, take-length,
  All-get_elem?, All-take, length-take, Option-cases, Bool-cases, get_elem?_lt,
}
use mathlib.Core.List.{reverse-cons}
use native.Mathlib.Decide.{dec_lt}
use structured_chaos.Ecs.FreeList.{
  FreeList, capacity, empty_list, take_chunk, open_list, last_full, append_last, add_index, give,
}

-- The weight of the indices of a list, each as often as it stands there.
abbrev pub count : (ℕ → ℕ) → List ℕ → ℕ
count w [] = 0
count w (j ∷ js) = w j + count w js

abbrev pub count_chunks : (ℕ → ℕ) → List (List ℕ) → ℕ
count_chunks w [] = 0
count_chunks w (c ∷ cs) = count w c + count_chunks w cs

-- The weight of what is there to be taken.
abbrev pub count_free : (ℕ → ℕ) → FreeList → ℕ
count_free w f = count_chunks w (take f.left f.chunks)

abbrev IsFull : List ℕ → Type 0
IsFull c = (0 < length c) × (length c ≤ capacity)

pub record IsValid (f : FreeList) : Type 0 where
  pub within : f.left ≤ length f.chunks
  pub shown : f.published ≡ length f.chunks
  pub filled : All (λ c. (0 < length c) × (length c ≤ capacity)) f.chunks

pub count-append : (w : ℕ → ℕ) (xs ys : List ℕ) → count w (xs ++ ys) ≡ count w xs + count w ys
count-append w [] ys = omega arith
count-append w (x ∷ xs) ys = omega (arith, count-append w xs ys)

pub count-length : (xs : List ℕ) → count (λ _. 1) xs ≡ length xs
count-length [] = refl
count-length (x ∷ xs) = omega (arith, count-length xs)

pub count-reverse : (w : ℕ → ℕ) (xs : List ℕ) → count w (reverse xs) ≡ count w xs
count-reverse w [] = refl
count-reverse w (x ∷ xs) = omega (
  arith,
  ap (count w) (reverse-cons x xs),
  count-append w (reverse xs) (x ∷ []),
  count-reverse w xs,
)

count_chunks-take :
    (w : ℕ → ℕ) (n : ℕ) (cs : List (List ℕ)) (c : List ℕ)
    → get_elem? cs n ≡ some c
    → count_chunks w (take (suc n) cs) ≡ count_chunks w (take n cs) + count w c
count_chunks-take w n [] c h = absurd (ground arith)
count_chunks-take w zero (d ∷ cs) c h = ground arith
count_chunks-take w (suc n) (d ∷ cs) c h = omega (arith, count_chunks-take w n cs c h)

-- A chunk that take gives has at least one index, its indices are no longer in the list, all
-- others still are, and the chunks stay in order.
pub take_chunk-count :
    (w : ℕ → ℕ) (f : FreeList) (c : List ℕ) (g : FreeList)
    → IsValid f
    → take_chunk f ≡ some (c, g)
    → (count_free w f ≡ count_free w g + count w c) × (0 < length c) × IsValid g
unfolding take_chunk
take_chunk-count w f c g v h = elim (Option-cases (get_elem? f.chunks (f.left - 1))) [
  | inl e ↦ absurd (ground arith)
  | inr (d, e) ↦
      let same : (c ≡ d) × (g ≡ record f { left = f.left - 1 }) = ground arith in
      let some_left : f.left ≡ suc (f.left - 1) = ground arith in
      let counted =
        ap (λ n. count_chunks w (take n f.chunks)) some_left
        ∙ count_chunks-take w (f.left - 1) f.chunks d e in
      rw (same.0, same.1)
        (
          counted,
          (All-get_elem? IsFull f.chunks (f.left - 1) v.filled e).0,
          record { within = ground arith; shown = v.shown; filled = v.filled },
        )
]

pub take_chunk-none : (f : FreeList) → IsValid f → take_chunk f ≡ none → f.left ≡ 0
unfolding take_chunk
take_chunk-none f v h = elim (Option-cases (get_elem? f.chunks (f.left - 1))) [
  | inl e ↦ elim (dec_lt (f.left - 1) (length f.chunks)) [
    | yes lt ↦ absurd (ground (arith, get_elem?_lt f.chunks (f.left - 1) lt))
    | no ge ↦ omega arith
  ]
  | inr (d, e) ↦ ground arith
]

-- `open` cuts off the chunks that were taken.
open_list-count :
    (w : ℕ → ℕ) (f : FreeList)
    → IsValid f
    → (count_chunks w (open_list f).chunks ≡ count_free w f)
      × IsValid (open_list f)
      × ((open_list f).left ≡ length (open_list f).chunks)
unfolding open_list
open_list-count w f v = elim (Bool-cases (ltb f.left f.published)) [
  | inl cut ↦
      rw (cut, open_list)
        (
          refl,
          record {
            within = omega (arith, length-take f.chunks f.left v.within);
            shown = refl;
            filled = All-take IsFull f.chunks f.left v.filled;
          },
          sym (length-take f.chunks f.left v.within),
        )
  | inr whole ↦
      let all : f.left ≡ length f.chunks = ground arith in
      rw (whole, open_list)
        (sym (ap (count_chunks w) (ap (λ n. take n f.chunks) all ∙ take-length f.chunks)), v, all)
]

-- Every chunk but the last has indices, and the last has room for one more.
HasRoom : List (List ℕ) → Type 0
HasRoom [] = ⊥
HasRoom (c ∷ []) = length c < capacity
HasRoom (c ∷ d ∷ rest) = IsFull c × HasRoom (d ∷ rest)

not_full-HasRoom : (cs : List (List ℕ)) → All IsFull cs → last_full cs ≡ false → HasRoom cs
unfolding last_full HasRoom
not_full-HasRoom [] h e = ground arith
not_full-HasRoom (c ∷ []) h e = ground arith
not_full-HasRoom (c ∷ d ∷ rest) h e = (h.0, not_full-HasRoom (d ∷ rest) h.1 e)

extend-HasRoom : (cs : List (List ℕ)) → All IsFull cs → HasRoom (cs ++ ([] ∷ []))
unfolding HasRoom
extend-HasRoom [] h = omega arith
extend-HasRoom (c ∷ []) h = (h.0, omega arith)
extend-HasRoom (c ∷ d ∷ rest) h = (h.0, extend-HasRoom (d ∷ rest) h.1)

append_last_lem :
    (w : ℕ → ℕ) (j : ℕ) (cs : List (List ℕ))
    → HasRoom cs
    → (count_chunks w (append_last j cs) ≡ count_chunks w cs + w j)
      × (length (append_last j cs) ≡ length cs)
      × All IsFull (append_last j cs)
unfolding append_last HasRoom
append_last_lem w j [] h = absurd h
append_last_lem w j (c ∷ []) h = (
  omega (arith, count-append w c (j ∷ [])),
  refl,
  ((omega (arith, length-append c (j ∷ [])), omega (arith, length-append c (j ∷ []))), tt),
)
append_last_lem w j (c ∷ d ∷ rest) h =
    let r = append_last_lem w j (d ∷ rest) h.1 in (omega (arith, r.0), ap suc r.1, (h.0, r.2))

count_chunks-append :
    (w : ℕ → ℕ) (cs ds : List (List ℕ))
    → count_chunks w (cs ++ ds) ≡ count_chunks w cs + count_chunks w ds
count_chunks-append w [] ds = omega arith
count_chunks-append w (c ∷ cs) ds = omega (arith, count_chunks-append w cs ds)

-- A list as `open` leaves it, and as `add` keeps it.
pub record IsOpen (f : FreeList) : Type 0 where
  pub shown : f.published ≡ length f.chunks
  pub filled : All (λ c. (0 < length c) × (length c ≤ capacity)) f.chunks

pub add_index-count :
    (w : ℕ → ℕ) (j : ℕ) (f : FreeList)
    → IsOpen f
    → (count_chunks w (add_index j f).chunks ≡ count_chunks w f.chunks + w j)
      × IsOpen (add_index j f)
unfolding add_index
add_index-count w j f v = elim (Bool-cases (last_full f.chunks)) [
  | inl full ↦
      let a = append_last_lem w j (f.chunks ++ ([] ∷ [])) (extend-HasRoom f.chunks v.filled) in
      rw (full, add_index)
        (
          omega (arith, a.0, count_chunks-append w f.chunks ([] ∷ [])),
          record { shown = sym a.1; filled = a.2 },
        )
  | inr room ↦
      let a = append_last_lem w j f.chunks (not_full-HasRoom f.chunks v.filled room) in
      rw (room, add_index) (a.0, record { shown = v.shown ∙ sym a.1; filled = a.2 })
]

-- An index that is given back to a list whose chunks are in order is there to be taken once more,
-- no other index is touched, and the chunks stay in order.
pub give-count :
    (w : ℕ → ℕ) (j : ℕ) (f : FreeList)
    → IsValid f
    → (count_free w (give j f) ≡ count_free w f + w j) × IsValid (give j f)
unfolding give
give-count w j f v =
    let o = open_list-count w f v in
    let a = add_index-count w j (open_list f) (record { shown = o.1.shown; filled = o.1.filled }) in
    let g = add_index j (open_list f) in
    let whole = ap (λ n. take n g.chunks) a.1.shown ∙ take-length g.chunks in
    (
      ap (count_chunks w) whole ∙ a.0 ∙ ap (λ n. n + w j) o.0,
      record { within = omega (arith, a.1.shown); shown = a.1.shown; filled = a.1.filled },
    )

pub empty_list-IsValid : IsValid empty_list
empty_list-IsValid = record { within = omega arith; shown = refl; filled = tt }
