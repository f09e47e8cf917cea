-- ===== src/Memory/Arena/Fit.antt =====
-- What `fit` of monotonic_resource.hpp finds: an aligned place in the range, without a wrap.
use structured_chaos.Prelude.{
  ℕ, zero, suc, ◌+◌, ◌-◌, ◌*◌, ◌/◌, ◌%◌, ◌^◌, ◌≤◌, ◌<◌, ◌≡◌, ◌≢◌, ap, ◌∙◌, inl, inr, true, false,
  Option, none, some, ◌==◌, ltb, leb, arith, word, Bool-cases, eq_of_some, ◌||◌,
}
use native.Mathlib.Nat.{mul-mod_left, div-lt_iff_lt-mul}
use native.Mathlib.Decide.{dec_le}
use structured_chaos.Memory.Arena.{Arena, max_align, align_up, fit, fits_new_block, span_bytes}

pow_pos : (k : ℕ) → 0 < 2 ^ k
pow_pos zero = omega arith
pow_pos (suc k) = omega (arith, pow_pos k)

-- Rounding up stays below the next multiple.
align_up_bounds :
    (current k : ℕ)
    → current + 2 ^ k ≤ word
    → (current ≤ align_up current k) × (align_up current k ≤ current + 2 ^ k - 1)
align_up_bounds current k h = grind (arith, pow_pos k)

-- What fit finds is aligned and not before the current place, and ends no later than the end of
-- the range, so no sum wraps; it finds nothing without a range.
pub fit_lem :
    (current end bytes k : ℕ) {p : ℕ}
    → fit current end bytes k ≡ some p
    → (current ≢ 0) × (current ≤ p) × (p + bytes ≤ end) × (p % 2 ^ k ≡ 0)
unfolding fit
fit_lem current end bytes k {p} h =
    let x = align_up current k in
    elim (Bool-cases (current == 0)) [
      | inl null ↦ absurd (ground arith)
      | inr there ↦ elim (Bool-cases (ltb x current || ltb end x || ltb (end - x) bytes)) [
        | inl misses ↦ absurd (ground arith)
        | inr fits ↦
            let same : some (current + (x - current)) ≡ some p = ground arith in
            let bounds : (current ≤ x) × (x ≤ end) × (bytes ≤ end - x) = ground arith in
            let here : p ≡ x = omega (arith, eq_of_some same, bounds.0) in
            (
              ground arith,
              omega (arith, here, bounds.0),
              omega (arith, here, bounds.1, bounds.2),
              ap (λ y. y % 2 ^ k) here
                  ∙ mul-mod_left ((current + 2 ^ k - 1) % word / 2 ^ k) (2 ^ k),
            )
      ]
    ]

align_up_aligned :
    (ptr k : ℕ)
    → 2 ^ k ≤ 2 ^ max_align
    → ptr % 2 ^ max_align ≡ 0
    → ptr < word
    → align_up ptr k ≡ ptr
align_up_aligned ptr zero h al l = omega arith
align_up_aligned ptr (suc zero) h al l = omega arith
align_up_aligned ptr (suc (suc zero)) h al l = omega arith
align_up_aligned ptr (suc (suc (suc zero))) h al l = omega arith
align_up_aligned ptr (suc (suc (suc (suc zero)))) h al l = omega arith
align_up_aligned ptr (suc (suc (suc (suc (suc k))))) h al l = absurd (omega (arith, pow_pos k))

-- A request that fitsNewBlock lets through fits into a block of the block size that starts at a
-- multiple of 16 and ends within the addresses: allocate does not ask for one block after the
-- other.
pub fits_new_block-fit :
    (ptr bytes k : ℕ) (a : Arena)
    → fits_new_block bytes k a ≡ true
    → ptr ≢ 0
    → ptr % 2 ^ max_align ≡ 0
    → ptr + a.block_size ≤ word
    → (p : ℕ) × (fit ptr (ptr + a.block_size - 1) bytes k ≡ some p)
unfolding fit fits_new_block
fits_new_block-fit ptr bytes k a h nz al inside =
    let x = align_up ptr k in
    let end = ptr + a.block_size - 1 in
    let least : bytes < a.block_size = ground arith in
    let room : (ptr ≤ x) × (x + bytes ≤ end) = elim (Bool-cases (leb (2 ^ k) (2 ^ max_align))) [
      | inl small ↦
          let stays = align_up_aligned ptr k (ground arith) al (omega (arith, inside, least)) in
          omega (arith, stays, least)
      | inr large ↦
          let room : 2 ^ k ≤ a.block_size - bytes = ground arith in
          let b = align_up_bounds ptr k (omega (arith, room, inside)) in
          omega (arith, b, room, least)
    ] in
    let goes : (ltb x ptr || ltb end x || ltb (end - x) bytes) ≡ false = ground arith in
    (ptr + (x - ptr), ground arith)

-- What allocateSpan asks for: all bytes of the elements, or an error if those are too many.
abbrev pub Asked : ℕ → ℕ → Option ℕ → Type 0
Asked count size none = word ≤ count * size
Asked count size (some n) = (n ≡ count * size) × (n < word)

-- For elements of at least one byte, allocateSpan asks for all bytes of the elements, or fails
-- exactly if those are 2^64 or more.
pub span_bytes-Asked : (count size : ℕ) → 0 < size → Asked count size (span_bytes count size)
unfolding span_bytes
span_bytes-Asked count size h =
    let less = div-lt_iff_lt-mul {k = size} {x = word - 1} {y = count} h in
    elim (Bool-cases (ltb ((word - 1) / size) count)) [
      | inl many ↦ rw (many) (omega (arith, less.0 (ground arith)))
      | inr fits ↦
          let all : count * size < word = elim (dec_le word (count * size)) [
            | yes over ↦ absurd (ground (arith, less.1 (omega (arith, over))))
            | no below ↦ omega arith
          ] in
          rw (fits) (omega (arith, all), omega (arith, all))
    ]
