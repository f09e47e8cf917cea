-- ===== src/Threading/Loop/Alone.antt =====
-- The loop of parallel_for.hpp without helpers calls the function for every item once.
use structured_chaos.Prelude.{
  ℕ, zero, suc, ◌+◌, ◌≤◌, ◌<◌, ◌≡◌, inl, inr, ◌==◌, ltb, leb, arith, max, word, add_size,
  Bool-cases,
}
use structured_chaos.Threading.Loop.{chunk_end, alone, parallel_for_alone, covers, in_range}

-- A chunk, and what is left behind it.
pub chunk_in_range :
    (count grain first i : ℕ)
    → 0 < grain
    → count + grain ≤ word
    → first < count
    → in_range first (chunk_end count grain first) i + in_range (add_size first grain) count i
      ≡ in_range first count i
chunk_in_range count grain first i g w l =
    let sum : add_size first grain ≡ first + grain = omega arith in rw (sum) (ground arith)

alone-covers :
    (count grain fuel first i : ℕ)
    → 0 < grain
    → count + grain ≤ word
    → count ≤ first + fuel
    → covers i (alone count grain fuel first) ≡ in_range first count i
unfolding alone
alone-covers count grain zero first i g w f = ground arith
alone-covers count grain (suc fuel) first i g w f = elim (Bool-cases (ltb first count)) [
  | inl more ↦
      let rest = alone-covers count grain fuel (add_size first grain) i g w (ground arith) in
      rw (more) (omega (arith, rest, chunk_in_range count grain first i g w (ground arith)))
  | inr done ↦ rw (done) (ground arith)
]

-- When parallelFor shares nothing and no call throws, every item is in one call and no call goes
-- past the last item, if the number of items and a chunk together are at most 2^64.
pub parallel_for_alone-covers :
    (count grain i : ℕ)
    → count + max grain 1 ≤ word
    → covers i (parallel_for_alone count grain) ≡ in_range 0 count i
unfolding parallel_for_alone
parallel_for_alone-covers count grain i w = elim (Bool-cases (leb count (max grain 1))) [
  | inl one ↦ elim (Bool-cases (count == 0)) [
    | inl empty ↦ rw (one, empty) (ground arith)
    | inr some_items ↦ rw (one, some_items) (ground arith)
  ]
  | inr more ↦ rw (more) (alone-covers count (max grain 1) count 0 i (ground arith) w (omega arith))
]
