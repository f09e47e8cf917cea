-- ===== src/Threading/RingQueue/Geometry.antt =====
-- Laps, granules and slots of the positions of a ring, for ring_queue.hpp.
use native.Mathlib.Nat.{
  div-add-mod', mod-lt, div-lt_iff_lt-mul, mul-add-div_right, mul-add-mod_self_right, div-eq_of_lt,
  mod-eq_of_lt, mul-le-mul_right, div-le_self,
}
use structured_chaos.Prelude.{ℕ, ◌+◌, ◌*◌, ◌/◌, ◌%◌, ◌≤◌, ◌<◌, ◌≡◌, false, arith, ap, word}
use structured_chaos.Threading.RingQueue.{Sizes, slot_of, lap_of, granule_of}

-- The granules split the ring evenly, and have one slot each if no memory is given back.
pub record Fits (z : Sizes) : Type 0 where
  pub even : z.num_granules * z.granule_slots ≡ z.real_cap
  pub slots_pos : 0 < z.granule_slots
  pub cap_pos : 0 < z.real_cap
  pub small : z.granule_slots < word
  pub single : z.reclaim ≡ false → z.granule_slots ≡ 1

-- The place of a position in its granule.
unfoldable pub index_of : Sizes → ℕ → ℕ
index_of z p = (p % z.real_cap) % z.granule_slots

-- The position of a place in a granule in a lap.
unfoldable pub position : Sizes → ℕ → ℕ → ℕ → ℕ
position z l g i = l * z.real_cap + (g * z.granule_slots + i)

module _ {z : Sizes} (fits : Fits z) where
  pub index_of_lt : (p : ℕ) → index_of z p < z.granule_slots
  unfolding index_of
  index_of_lt p = mod-lt (p % z.real_cap) fits.slots_pos

  pub granule_of_lt : (p : ℕ) → granule_of z p < z.num_granules
  unfolding granule_of
  granule_of_lt p =
      (div-lt_iff_lt-mul fits.slots_pos).1 (omega (arith, mod-lt p fits.cap_pos, fits.even))

  pub slot_of_parts : (p : ℕ) → granule_of z p * z.granule_slots + index_of z p ≡ slot_of z p
  unfolding slot_of granule_of index_of
  slot_of_parts p = div-add-mod' (p % z.real_cap) z.granule_slots

  pub position_of_parts : (p : ℕ) → position z (lap_of z p) (granule_of z p) (index_of z p) ≡ p
  unfolding position lap_of granule_of index_of
  position_of_parts p =
      omega (arith, div-add-mod' (p % z.real_cap) z.granule_slots, div-add-mod' p z.real_cap)

  module _ (l : ℕ) {g i : ℕ} (in_ring : g < z.num_granules) (in_granule : i < z.granule_slots) where
    offset_lt : g * z.granule_slots + i < z.real_cap
    offset_lt = omega (
      arith,
      fits.even,
      mul-le-mul_right {m = g + 1} {n = z.num_granules} z.granule_slots (omega arith),
    )

    pub lap_of-position : lap_of z (position z l g i) ≡ l
    unfolding lap_of position
    lap_of-position =
        omega (
          arith,
          mul-add-div_right fits.cap_pos l (g * z.granule_slots + i),
          div-eq_of_lt offset_lt,
        )

    pub slot_of-position : slot_of z (position z l g i) ≡ g * z.granule_slots + i
    unfolding slot_of position
    slot_of-position =
        rw (mul-add-mod_self_right l z.real_cap (g * z.granule_slots + i)) (mod-eq_of_lt offset_lt)

    pub granule_of-position : granule_of z (position z l g i) ≡ g
    unfolding granule_of position
    granule_of-position =
        rw (mul-add-mod_self_right l z.real_cap (g * z.granule_slots + i), mod-eq_of_lt offset_lt)
          (omega (arith, mul-add-div_right fits.slots_pos g i, div-eq_of_lt in_granule))

    pub index_of-position : index_of z (position z l g i) ≡ i
    unfolding index_of position
    index_of-position =
        rw
          (
            mul-add-mod_self_right l z.real_cap (g * z.granule_slots + i),
            mod-eq_of_lt offset_lt,
            mul-add-mod_self_right g z.granule_slots i,
          )
          (mod-eq_of_lt in_granule)

  -- A slot belongs to one granule, and to one position of a lap.
  pub slot_of-lap_of-injective :
      (p q : ℕ) → slot_of z p ≡ slot_of z q → lap_of z p ≡ lap_of z q → p ≡ q
  unfolding slot_of lap_of
  slot_of-lap_of-injective p q s l =
      omega
        (arith, div-add-mod' p z.real_cap, div-add-mod' q z.real_cap, ap (λ k. k * z.real_cap) l)

  pub lap_of_le : (p : ℕ) → lap_of z p ≤ p
  unfolding lap_of
  lap_of_le p = div-le_self p z.real_cap

  -- A position of an earlier lap comes before.
  pub position_lt :
      (l i p : ℕ) → l < lap_of z p → i < z.granule_slots → position z l (granule_of z p) i < p
  unfolding position lap_of granule_of
  position_lt l i p h m =
      let low = offset_lt l (granule_of_lt p) m in
      omega (
        arith,
        low,
        div-add-mod' p z.real_cap,
        mul-le-mul_right {m = l + 1} {n = p / z.real_cap} z.real_cap (omega arith),
      )

-- A slot belongs to one granule.
pub granule_of_slot :
    (z : Sizes) (p q : ℕ) → slot_of z p ≡ slot_of z q → granule_of z p ≡ granule_of z q
unfolding slot_of granule_of
granule_of_slot z p q s = ap (λ k. k / z.granule_slots) s
