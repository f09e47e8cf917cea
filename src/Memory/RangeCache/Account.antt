-- ===== src/Memory/RangeCache/Account.antt =====
-- The account that range_cache.hpp keeps: `m_bytes` is what the kept ranges have together, and stays
-- within the limits, with no wrap of `size_t`.
use structured_chaos.Prelude.{
  ℕ, suc, ◌+◌, ◌-◌, ◌≤◌, ◌<◌, ◌≡◌, refl, ap, ◌⊎◌, leb, leb→le, Bool-cases, inl, inr, List, [], ◌∷◌,
  ◌++◌, Option, some, arith, word, sub_size, length, length-append, Option-cases,
}
use structured_chaos.Memory.RangeCache.{
  Range, Cache, max_ranges, init, drop_oldest, take_newest, reserve, keep_range, release, shrink,
}

abbrev pub sum : List Range → ℕ
sum [] = 0
sum (r ∷ rs) = r.bytes + sum rs

pub sum-append : (xs ys : List Range) → sum (xs ++ ys) ≡ sum xs + sum ys
sum-append [] ys = omega arith
sum-append (x ∷ xs) ys = omega (arith, sum-append xs ys)

pub record Inv (c : Cache) : Type 0 where
  pub counted : c.bytes ≡ sum c.ranges
  pub few : length c.ranges ≤ max_ranges
  pub bytes_fit : c.bytes < word
  pub limit_fits : c.limit < word

-- What `dropOldest` leaves: the account is right again and within both bounds.
pub drop_oldest_bounds :
    (kb kr b : ℕ) (rs : List Range)
    → b ≡ sum rs
    → b < word
    → ((drop_oldest kb kr b rs).bytes ≡ sum (drop_oldest kb kr b rs).kept)
      × ((drop_oldest kb kr b rs).bytes ≤ kb)
      × (length (drop_oldest kb kr b rs).kept ≤ kr)
unfolding drop_oldest
drop_oldest_bounds kb kr b [] e h = omega arith
drop_oldest_bounds kb kr b (r ∷ rs) e h =
    ground (arith, drop_oldest_bounds kb kr (sub_size b r.bytes) rs (omega arith) (omega arith))

-- It takes the ranges from the front, and loses none.
pub gone-append-kept :
    (kb kr b : ℕ) (rs : List Range)
    → (drop_oldest kb kr b rs).gone ++ (drop_oldest kb kr b rs).kept ≡ rs
unfolding drop_oldest
gone-append-kept kb kr b [] = refl
gone-append-kept kb kr b (r ∷ rs) = ground (arith, gone-append-kept kb kr (sub_size b r.bytes) rs)

-- What `take_newest` takes out is accounted for.
pub take_newest-sum :
    (n : ℕ) (rs : List Range) {a : ℕ} {others : List Range}
    → take_newest n rs ≡ some (a, others)
    → (sum rs ≡ n + sum others) × (length rs ≡ suc (length others))
unfolding take_newest
take_newest-sum n [] h = ground arith
take_newest-sum n (r ∷ rs) h = elim (Option-cases (take_newest n rs)) [
  | inl e ↦ ground arith
  | inr (p, e) ↦ ground (arith, take_newest-sum n rs {a = p.0} {others = p.1} e)
]

-- The bytes only fall.
drop_oldest_le :
    (kb kr b : ℕ) (rs : List Range) → b ≡ sum rs → b < word → (drop_oldest kb kr b rs).bytes ≤ b
drop_oldest_le kb kr b rs e h =
    let d = drop_oldest kb kr b rs in
    let (counted, _, _) = drop_oldest_bounds kb kr b rs e h in
    let all = ap sum (gone-append-kept kb kr b rs) in omega (arith, sum-append d.gone d.kept)

-- A new cache is empty.
pub init-Inv : (limit : ℕ) → limit < word → Inv (init limit)
init-Inv limit h = record {
  counted = refl;
  few = omega arith;
  bytes_fit = omega arith;
  limit_fits = h;
}

-- An operation keeps the account, and does not go over the limit.
pub record Kept (c d : Cache) : Type 0 where
  pub inv : Inv d
  pub same_limit : d.limit ≡ c.limit
  pub under : (d.bytes ≤ c.bytes) ⊎ (d.bytes ≤ c.limit)

pub reserve-Kept : (os : ℕ → Option ℕ) (n : ℕ) (c : Cache) → Inv c → Kept c (reserve os n c).1
unfolding reserve
reserve-Kept os n c v = elim (Option-cases (take_newest n c.ranges)) [
  | inl e ↦ rw (e, reserve) (record { inv = v; same_limit = refl; under = inl (omega arith) })
  | inr (p, e) ↦
      let (total, count) = take_newest-sum n c.ranges {a = p.0} {others = p.1} e in
      rw (e, reserve)
        (record {
          inv = record {
            counted = omega (arith, v.counted, v.bytes_fit);
            few = omega (arith, v.few);
            bytes_fit = omega (arith, v.counted, v.bytes_fit);
            limit_fits = v.limit_fits;
          };
          same_limit = refl;
          under = inl (omega (arith, v.counted, v.bytes_fit));
        })
]

pub release-Kept : (r : Range) (c : Cache) → Inv c → Kept c (release r c).1
unfolding release keep_range
release-Kept r c v =
    let kb = c.limit - r.bytes in
    let d = drop_oldest kb (max_ranges - 1) c.bytes c.ranges in
    let (counted, under, few) =
      drop_oldest_bounds kb (max_ranges - 1) c.bytes c.ranges v.counted v.bytes_fit in
    let more = sum-append d.kept (r ∷ []) in
    let longer = length-append d.kept (r ∷ []) in
    elim (Bool-cases (leb r.bytes c.limit)) [
      | inl fits ↦
          let room = leb→le r.bytes c.limit fits in
          rw (release, keep_range, fits)
            (record {
              inv = record {
                counted = omega (arith, v.limit_fits);
                few = omega arith;
                bytes_fit = omega (arith, v.limit_fits);
                limit_fits = v.limit_fits;
              };
              same_limit = refl;
              under = inr (omega (arith, v.limit_fits));
            })
      | inr over ↦
          rw (release, keep_range, over)
            (record { inv = v; same_limit = refl; under = inl (omega arith) })
    ]

pub shrink-Kept :
    (keep : ℕ) (c : Cache) → Inv c → Kept c (shrink keep c).1 × ((shrink keep c).1.bytes ≤ keep)
unfolding shrink
shrink-Kept keep c v =
    let (counted, under, few) =
      drop_oldest_bounds keep max_ranges c.bytes c.ranges v.counted v.bytes_fit in
    let less = drop_oldest_le keep max_ranges c.bytes c.ranges v.counted v.bytes_fit in
    (
      record {
        inv = record {
          counted = counted;
          few = few;
          bytes_fit = omega (arith, v.bytes_fit);
          limit_fits = v.limit_fits;
        };
        same_limit = refl;
        under = inl less;
      },
      under,
    )
