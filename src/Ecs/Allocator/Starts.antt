-- ===== src/Ecs/Allocator/Starts.antt =====
-- Where the areas of entity.hpp start: on a page that the allocator may hand out.
use structured_chaos.Prelude.{
  ℕ, zero, suc, ◌+◌, ◌-◌, ◌*◌, ◌/◌, ◌^◌, ◌≤◌, ◌<◌, ◌≡◌, refl, sym, ap, ◌∙◌, inl, inr, some, ◌==◌,
  leb, arith, Bool-cases, eq_of_some,
}
use native.Mathlib.Nat.{div-lt_iff_lt-mul, pow-le-pow_right}
use structured_chaos.Ecs.FreeList.Counts.{empty_list-IsValid}
use structured_chaos.Ecs.Allocator.{
  Area, page_count_limit, page_number_bits, reverse_bits, start_of, new_area, init,
}
use structured_chaos.Ecs.Allocator.Invariant.{TablesOk}

pow_split : (a b : ℕ) → 2 ^ (a + b) ≡ 2 ^ a * 2 ^ b
pow_split zero b = let z : 0 + b ≡ b = omega arith in omega (arith, ap (λ k. 2 ^ k) z)
pow_split (suc a) b =
    let next : suc a + b ≡ suc (a + b) = omega arith in
    grind (arith, ap (λ k. 2 ^ k) next, pow_split a b)

pow_pos : (a : ℕ) → 0 < 2 ^ a
pow_pos zero = omega arith
pow_pos (suc a) = omega (arith, pow_pos a)

reverse_bits_lt : (rest bit area : ℕ) → reverse_bits rest bit area < 2 ^ rest
unfolding reverse_bits
reverse_bits_lt zero bit area = omega arith
reverse_bits_lt (suc rest) bit area = grind (arith, reverse_bits_lt rest (suc bit) area)

start_of_lt : (area : ℕ) → start_of area < page_count_limit
unfolding start_of
start_of_lt area = ground (arith, reverse_bits_lt page_number_bits 0 area)

starts_lt :
    (page_bits n : ℕ) → start_of n / 2 ^ (init page_bits).start_shift < (init page_bits).page_limit
unfolding init
starts_lt page_bits n = elim (Bool-cases (leb page_number_bits page_bits)) [
  | inl all ↦ rw (all, init) (omega (arith, start_of_lt n))
  | inr some_bits ↦
      rw (some_bits, init)
        (let few : page_bits < page_number_bits = ground arith in
          let together : page_bits + (page_number_bits - page_bits) ≡ 20 = omega arith in
          let whole : 2 ^ page_bits * 2 ^ (page_number_bits - page_bits) ≡ 2 ^ 20 =
            sym (pow_split page_bits (page_number_bits - page_bits)) ∙ ap (λ k. 2 ^ k) together in
          let pos : 0 < 2 ^ (page_number_bits - page_bits) =
            pow_pos (page_number_bits - page_bits) in
          (div-lt_iff_lt-mul {x = start_of n} {y = 2 ^ page_bits} pos).1
            (omega (arith, start_of_lt n, whole)))
]

page_limit_bounds :
    (page_bits : ℕ)
    → (0 < (init page_bits).page_limit) × ((init page_bits).page_limit ≤ page_count_limit)
unfolding init
page_limit_bounds page_bits = elim (Bool-cases (leb page_number_bits page_bits)) [
  | inl all ↦ rw (all, init) (omega arith)
  | inr some_bits ↦
      let few : page_bits ≤ 19 = ground arith in
      rw (some_bits, init)
        (pow_pos page_bits, omega (arith, pow-le-pow_right {n = 2} (omega arith) few))
]

init_areas :
    (page_bits n : ℕ) (a : Area)
    → (init page_bits).areas n ≡ some a
    → (n ≡ 0) × (new_area (start_of 0) ≡ a)
unfolding init
init_areas page_bits n a h = elim (Bool-cases (0 == n)) [
  | inl z ↦
      let here : (init page_bits).areas n ≡ some (new_area (start_of 0)) = rw (z) refl in
      (ground arith, eq_of_some (sym here ∙ h))
  | inr z ↦ absurd (ground arith)
]

pub init-TablesOk : (page_bits : ℕ) → TablesOk (init page_bits)
unfolding init
init-TablesOk page_bits = record {
  areas_ok = λ n a h. rw (sym (init_areas page_bits n a h).1) (record {
    free = empty_list-IsValid;
    shares = λ t l. record {
      ordered = omega arith;
      short = omega arith;
      zeros = λ i h l. absurd (omega arith);
    };
    cursor = omega (arith, (page_limit_bounds page_bits).0);
  });
  area_below = λ n a h. omega (arith, (init_areas page_bits n a h).0);
  few_areas = omega arith;
  owner_area = λ p h. absurd (h refl);
  page_within = λ p h. absurd (h refl);
  limit = (page_limit_bounds page_bits).1;
  starts = starts_lt page_bits;
  paged = λ p. refl;
}
