-- ===== src/Threading/RingQueue/Measures.antt =====
-- The sizes that ring_queue.hpp computes, and `size()`.
use native.Mathlib.Decide.{dec_lt}
use native.Mathlib.Nat.{pow-suc, pow-le-pow_right, mul-div_cancel, div-one, mul-one, add-zero}
use structured_chaos.Prelude.{
  ℕ, zero, suc, ◌+◌, ◌-◌, ◌*◌, ◌/◌, ◌^◌, ◌≤◌, ◌<◌, ◌≡◌, refl, sym, ap, ◌∙◌, subst, Bool-cases, inl,
  inr, if_rule, if◌then◌else◌, ltb, leb, min, max, arith, word,
}
use structured_chaos.Threading.RingQueue.{
  ceil_from, floor_from, sizes, size, block_bytes, bit_floor,
}
use structured_chaos.Threading.RingQueue.Geometry.{Fits}

pow_split : (d c : ℕ) → 2 ^ (d + c) ≡ 2 ^ d * 2 ^ c
pow_split d zero = rw add-zero (sym (mul-one (2 ^ d)))
pow_split d (suc c) =
    let low = pow_split d c in
    let up : 2 ^ (d + suc c) ≡ 2 ^ suc (d + c) = ap (λ k. 2 ^ k) (omega arith) in
    grind (arith, pow-suc 2 (d + c), pow-suc 2 c)

pow_pos : (c : ℕ) → 0 < 2 ^ c
pow_pos zero = omega arith
pow_pos (suc c) = omega (arith, pow_pos c, pow-suc 2 c)

abbrev PowerFrom : ℕ → ℕ → ℕ → Type 0
PowerFrom k fuel v = (a : ℕ) × (k ≤ a) × (a ≤ k + fuel) × (v ≡ 2 ^ a)

later : (k fuel v : ℕ) → PowerFrom (suc k) fuel v → PowerFrom k (suc fuel) v
later k fuel v (a, lo, hi, e) = (a, omega arith, omega arith, e)

pub ceil_from_power : (n fuel k : ℕ) → PowerFrom k fuel (ceil_from n fuel k)
unfolding ceil_from
ceil_from_power n zero k = (k, omega arith, omega arith, refl)
ceil_from_power n (suc fuel) k =
    if_rule (PowerFrom k (suc fuel)) (leb n (2 ^ k)) (λ _. (k, omega arith, omega arith, refl))
      (λ _. later k fuel (ceil_from n fuel (suc k)) (ceil_from_power n fuel (suc k)))

floor_from_power : (n fuel k : ℕ) → PowerFrom k fuel (floor_from n fuel k)
unfolding floor_from
floor_from_power n zero k = (k, omega arith, omega arith, refl)
floor_from_power n (suc fuel) k =
    if_rule (PowerFrom k (suc fuel)) (leb (2 ^ suc k) n)
      (λ _. later k fuel (floor_from n fuel (suc k)) (floor_from_power n fuel (suc k)))
      (λ _. (k, omega arith, omega arith, refl))

ceil_from_ge : (n fuel k : ℕ) → n ≤ 2 ^ (k + fuel) → n ≤ ceil_from n fuel k
unfolding ceil_from
ceil_from_ge n zero k h = subst (λ j. n ≤ 2 ^ j) (omega arith) h
ceil_from_ge n (suc fuel) k h =
    if_rule (λ v. n ≤ v) (leb n (2 ^ k)) (λ e. ground arith)
      (λ _. ceil_from_ge n fuel (suc k) (subst (λ j. n ≤ 2 ^ j) (omega arith) h))

-- The smaller of two powers divides the larger.
min_power : (a b : ℕ) → (c : ℕ) × (c ≤ a) × (c ≤ b) × (min (2 ^ b) (2 ^ a) ≡ 2 ^ c)
min_power a b = elim (dec_lt a b) [
  | yes l ↦
      let le = pow-le-pow_right {n = 2} (omega arith) {i = a} {j = b} (omega arith) in
      (a, omega arith, omega arith, omega arith)
  | no m ↦
      let le = pow-le-pow_right {n = 2} (omega arith) {i = b} {j = a} (omega arith) in
      (b, omega arith, omega arith, omega arith)
]

power_even : (a c : ℕ) → c ≤ a → 2 ^ a / 2 ^ c * 2 ^ c ≡ 2 ^ a
power_even a c l =
    let whole : 2 ^ a ≡ 2 ^ (a - c) * 2 ^ c = ap (λ k. 2 ^ k) (omega arith) ∙ pow_split (a - c) c in
    rw (whole, mul-div_cancel (2 ^ (a - c)) (pow_pos c)) refl

even_sizes :
    (a c : ℕ)
    → c ≤ a
    → 2 ^ c < word
    → Fits (record {
      real_cap = 2 ^ a;
      slots_per_block = 2 ^ c;
      num_blocks = 2 ^ a / 2 ^ c;
      reclaim = ltb 1 (2 ^ a / 2 ^ c);
      granule_slots = if ltb 1 (2 ^ a / 2 ^ c) then 2 ^ c else 1;
      num_granules = 2 ^ a / (if ltb 1 (2 ^ a / 2 ^ c) then 2 ^ c else 1);
    })
even_sizes a c le small = elim (Bool-cases (ltb 1 (2 ^ a / 2 ^ c))) [
  | inl many ↦ rw (many) (record {
    even = power_even a c le;
    slots_pos = pow_pos c;
    cap_pos = pow_pos a;
    small = small;
    single = λ e. absurd (ground arith);
  })
  | inr single ↦ rw (single) (record {
    even = rw (div-one, mul-one) refl;
    slots_pos = omega arith;
    cap_pos = pow_pos a;
    small = omega arith;
    single = λ _. refl;
  })
]

-- sizes
pub sizes-Fits :
    (capacity slot_bytes : ℕ)
    → Fits (sizes capacity slot_bytes)
      × (capacity ≤ 2 ^ 63 → capacity ≤ (sizes capacity slot_bytes).real_cap)
unfolding sizes
sizes-Fits capacity slot_bytes =
    let (a, _, _, cap) = ceil_from_power capacity 64 0 in
    let (b, _, b_le, floor) = floor_from_power (max (block_bytes / slot_bytes) 1) 63 0 in
    let (c, c_le_a, c_le_b, per) = min_power a b in
    let block : min (bit_floor (max (block_bytes / slot_bytes) 1)) (ceil_from capacity 64 0)
        ≡ 2 ^ c =
      rw (cap, floor) per in
    let small : 2 ^ c ≤ 2 ^ 63 =
      pow-le-pow_right {n = 2} (omega arith) {i = c} {j = 63} (omega arith) in
    (
      rw (block, cap) (even_sizes a c c_le_a (omega arith)),
      λ h. ceil_from_ge capacity 64 0 (omega arith),
    )

-- size
pub size-distance :
    (h t : ℕ) → h < word → t < word → t - h < 2 ^ 63 → h - t ≤ 2 ^ 63 → size h t ≡ t - h
unfolding size
size-distance h t a b c d = ground arith
