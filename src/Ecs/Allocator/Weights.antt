-- ===== src/Ecs/Allocator/Weights.antt =====
-- What the tables of `EntityAllocator` hold, weighed: any weight of the indices, summed over those that
-- wait to be handed out and over those of the pages.
use structured_chaos.Prelude.{
  ℕ, zero, suc, ◌+◌, ◌-◌, ◌*◌, ◌≤◌, ◌<◌, ◌≡◌, refl, ap, ◌⊎◌, inl, inr, List, [], ◌∷◌, ◌++◌, Option,
  none, some, ◌==◌, if◌then◌else◌, arith, write, total, total-write, total-ge,
}
use native.Mathlib.Decide.{dec_lt}
use structured_chaos.Ecs.Entity.{page_of, page_size}
use structured_chaos.Ecs.FreeList.Counts.{count, count_free}
use structured_chaos.Ecs.Allocator.{
  Share, Area, Allocator, area_limit, max_threads, share_of, store,
}

-- 1 for the place i, 0 for every other one.
abbrev pub at : ℕ → ℕ → ℕ
at i j = if i == j then 1 else 0

-- The weight of the k indices from i on.
pub span : (ℕ → ℕ) → ℕ → ℕ → ℕ
span w i zero = 0
span w i (suc k) = w i + span w (i + 1) k

abbrev pub share_weight : (ℕ → ℕ) → Share → ℕ
share_weight w s = count w s.held + span w s.next (s.end - s.next)

abbrev pub share_count : ℕ
share_count = max_threads + 1

abbrev pub area_weight : (ℕ → ℕ) → Area → ℕ
area_weight w a = count_free w a.free + total (share_weight w) share_count a.shares

abbrev pub place_weight : (ℕ → ℕ) → Option Area → ℕ
place_weight w none = 0
place_weight w (some a) = area_weight w a

-- The indices that wait to be handed out.
abbrev pub waiting : (ℕ → ℕ) → Allocator → ℕ
waiting w s = total (place_weight w) area_limit s.areas

abbrev pub pages : (ℕ → ℕ) → List ℕ → ℕ
pages w [] = 0
pages w (p ∷ ps) = span w (p * page_size) page_size + pages w ps

pub span_one : (w : ℕ → ℕ) (i k : ℕ) → 0 < k → span w i k ≡ w i + span w (i + 1) (k - 1)
unfolding span
span_one w i zero h = absurd (omega arith)
span_one w i (suc k) h = ap (λ m. w i + span w (i + 1) m) (omega arith)

pub span_zero : (w : ℕ → ℕ) (i : ℕ) → span w i 0 ≡ 0
unfolding span
span_zero w i = refl

pub span_length : (i k : ℕ) → span (λ _. 1) i k ≡ k
unfolding span
span_length i zero = refl
span_length i (suc k) = omega (arith, span_length (i + 1) k)

pub span-at_out : (i n k : ℕ) → (i < n) ⊎ (n + k ≤ i) → span (at i) n k ≡ 0
unfolding span
span-at_out i n zero h = refl
span-at_out i n (suc k) (inl h) = ground (arith, span-at_out i (n + 1) k (inl (omega arith)))
span-at_out i n (suc k) (inr h) = ground (arith, span-at_out i (n + 1) k (inr (omega arith)))

pub span-at_in : (i n k : ℕ) → n ≤ i → i < n + k → span (at i) n k ≡ 1
unfolding span
span-at_in i n zero h l = absurd (omega arith)
span-at_in i n (suc k) h l = elim (dec_lt n i) [
  | yes lt ↦ ground (arith, span-at_in i (n + 1) k (omega arith) (omega arith))
  | no ge ↦ ground (arith, span-at_out i (n + 1) k (inl (omega arith)))
]

-- An index lies in the pages as often as its page is in the row.
pub pages-at : (i : ℕ) (ps : List ℕ) → pages (at i) ps ≡ count (at (page_of i)) ps
pages-at i [] = refl
pages-at i (p ∷ ps) = elim (dec_lt i (p * page_size)) [
  | yes lt ↦ ground (arith, pages-at i ps, span-at_out i (p * page_size) page_size (inl lt))
  | no ge ↦ elim (dec_lt i (p * page_size + page_size)) [
    | yes lt ↦
        ground (arith, pages-at i ps, span-at_in i (p * page_size) page_size (omega arith) lt)
    | no le ↦
        ground (arith, pages-at i ps, span-at_out i (p * page_size) page_size (inr (omega arith)))
  ]
]

pub pages-append : (w : ℕ → ℕ) (ps qs : List ℕ) → pages w (ps ++ qs) ≡ pages w ps + pages w qs
pages-append w [] qs = omega arith
pages-append w (p ∷ ps) qs = omega (arith, pages-append w ps qs)

pub share_of_lt : (thread : ℕ) → share_of thread < share_count
share_of_lt thread = ground arith

-- Writing an area with one share back changes the weight by what it changes there.
pub store-waiting :
    (w : ℕ → ℕ) (number thread : ℕ) (share : Share) (area : Area) (s : Allocator)
    → number < area_limit
    → waiting w (store number thread share area s)
        + place_weight w (s.areas number)
        + share_weight w (area.shares (share_of thread))
      ≡ waiting w s + area_weight w area + share_weight w share
store-waiting w number thread share area s h =
    let k = share_of thread in
    let inner = total-write (share_weight w) share_count area.shares k share (share_of_lt thread) in
    let outer =
      total-write (place_weight w) area_limit s.areas number
        (some (record area { shares = write area.shares k share })) h in
    omega (arith, inner, outer)

-- The share of a thread is part of what waits.
pub share-waiting :
    (w : ℕ → ℕ) (number t : ℕ) (area : Area) (s : Allocator)
    → number < area_limit
    → t < share_count
    → s.areas number ≡ some area
    → share_weight w (area.shares t) ≤ waiting w s
share-waiting w number t area s h l e =
    let inner = total-ge (share_weight w) share_count area.shares t l in
    let outer = total-ge (place_weight w) area_limit s.areas number h in
    let here = ap (place_weight w) e in omega (arith, inner, outer, here)
