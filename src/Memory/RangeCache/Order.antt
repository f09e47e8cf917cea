-- ===== src/Memory/RangeCache/Order.antt =====
-- Which range of range_cache.hpp is handed out, and which ones go back to the OS.
use structured_chaos.Prelude.{
  ℕ, ◌+◌, ◌-◌, ◌≤◌, ◌<◌, ◌≡◌, ◌≢◌, refl, ap, inl, inr, Bool, true, false, List, [], ◌∷◌, ◌++◌, map,
  Option, none, some, arith, word, sub_size, length, leb, All, length-append, Option-cases,
}
use native.Mathlib.Decide.{dec_lt}
use structured_chaos.Memory.RangeCache.{
  Range, Cache, OsCall, offers, releases, max_ranges, drop_oldest, take_newest, reserve, keep_range,
  release,
}
use structured_chaos.Memory.RangeCache.Account.{
  Inv, sum, sum-append, gone-append-kept, drop_oldest_bounds,
}

-- No range of the list has the size.
abbrev pub Lacks : ℕ → List Range → Type 0
Lacks n rs = All (λ r. r.bytes ≢ n) rs

-- The list without its newest range of the size, which has the address.
pub record Taken (n a : ℕ) (rs others : List Range) : Type 0 where
  pub older : List Range
  pub newer : List Range
  pub before : rs ≡ older ++ (record { address = a; bytes = n } ∷ newer)
  pub after : others ≡ older ++ newer
  pub newest : Lacks n newer

take_newest-none : (n : ℕ) (rs : List Range) → take_newest n rs ≡ none → Lacks n rs
unfolding take_newest
take_newest-none n [] h = tt
take_newest-none n (r ∷ rs) h = elim (Option-cases (take_newest n rs)) [
  | inl e ↦ (ground arith, take_newest-none n rs e)
  | inr (p, e) ↦ absurd (ground arith)
]

take_newest-Taken :
    (n : ℕ) (rs : List Range) (a : ℕ) (others : List Range)
    → take_newest n rs ≡ some (a, others)
    → Taken n a rs others
unfolding take_newest
take_newest-Taken n [] a others h = absurd (ground arith)
take_newest-Taken n (r ∷ rs) a others h = elim (Option-cases (take_newest n rs)) [
  | inl e ↦ record {
    older = [];
    newer = rs;
    before = ground arith;
    after = ground arith;
    newest = take_newest-none n rs e;
  }
  | inr (p, e) ↦
      let t = take_newest-Taken n rs p.0 p.1 e in
      record {
        older = r ∷ t.older;
        newer = t.newer;
        before = ground (arith, t.before);
        after = ground (arith, t.after);
        newest = t.newest;
      }
]

-- What `reserve` gives, on each branch.
pub data Reserved (os : ℕ → Option ℕ) (n : ℕ) (c : Cache) : Option (ℕ × Bool) → Cache → Type 0 where
  reused :
      {a : ℕ} {c' : Cache}
      → Taken n a c.ranges c'.ranges
      → c'.limit ≡ c.limit
      → Reserved os n c (some (a, true)) c'
  fresh : {a : ℕ} → Lacks n c.ranges → os n ≡ some a → Reserved os n c (some (a, false)) c
  refused : Lacks n c.ranges → os n ≡ none → Reserved os n c none c

-- reserve hands out the newest kept range of exactly the size and leaves the others in their
-- order; if there is none it leaves the cache alone and gives the new range of the OS, or fails
-- as the OS does.
pub reserve-Reserved :
    (os : ℕ → Option ℕ) (n : ℕ) (c : Cache) → Reserved os n c (reserve os n c).0 (reserve os n c).1
unfolding reserve
reserve-Reserved os n c = elim (Option-cases (take_newest n c.ranges)) [
  | inl e ↦ elim (Option-cases (os n)) [
    | inl o ↦ rw (e, o, reserve) (refused (take_newest-none n c.ranges e) o)
    | inr (a, o) ↦ rw (e, o, reserve) (fresh (take_newest-none n c.ranges e) o)
  ]
  | inr (p, e) ↦ rw (e, reserve) (reused (take_newest-Taken n c.ranges p.0 p.1 e) refl)
]

-- `dropOldest` stops as soon as what is left fits.
drop_oldest_least :
    (kb kr b : ℕ) (rs xs ys : List Range)
    → b ≡ sum rs
    → b < word
    → xs ++ ys ≡ rs
    → sum ys ≤ kb
    → length ys ≤ kr
    → length ys ≤ length (drop_oldest kb kr b rs).kept
unfolding drop_oldest
drop_oldest_least kb kr b [] xs ys e h s fit few = omega (arith, ap length s, length-append xs ys)
drop_oldest_least kb kr b (r ∷ rs) [] ys e h s fit few = ground (arith, ap sum s, ap length s)
drop_oldest_least kb kr b (r ∷ rs) (x ∷ xs) ys e h s fit few =
    ground (
      arith,
      drop_oldest_least kb kr (sub_size b r.bytes) rs xs ys,
      ap length s,
      length-append xs ys,
    )

-- What `release` does with a range within the limit. The kept ranges go back to the OS from the front, and
-- of those that are left the new one is the last; they are as many as fit beside it.
pub record Evicted (r : Range) (c : Cache) (calls : List OsCall) (d : Cache) : Type 0 where
  pub gone : List Range
  pub kept : List Range
  pub oldest_go : gone ++ kept ≡ c.ranges
  pub to_os : calls ≡ offers r ∷ map releases gone
  pub newest_stay : d.ranges ≡ kept ++ (r ∷ [])
  pub fits : sum kept + r.bytes ≤ c.limit
  pub few : length kept < max_ranges
  pub most :
      (xs ys : List Range)
      → xs ++ ys ≡ c.ranges
      → sum ys + r.bytes ≤ c.limit
      → length ys < max_ranges
      → length ys ≤ length kept
  pub counted : d.bytes ≡ sum d.ranges
  pub same_limit : d.limit ≡ c.limit

-- What `release` does, by the size of the range.
pub data Released (r : Range) (c : Cache) : List OsCall × Cache → Type 0 where
  keeps :
      {calls : List OsCall} {d : Cache}
      → r.bytes ≤ c.limit
      → Evicted r c calls d
      → Released r c (calls, d)
  refuses : c.limit < r.bytes → Released r c (offers r ∷ releases r ∷ [], c)

release-Evicted :
    (r : Range) (c : Cache)
    → Inv c
    → r.bytes ≤ c.limit
    → Evicted r c (release r c).0 (release r c).1
unfolding release keep_range
release-Evicted r c v room =
    let kb = c.limit - r.bytes in
    let d = drop_oldest kb (max_ranges - 1) c.bytes c.ranges in
    let fits : leb r.bytes c.limit ≡ true = ground arith in
    let (counted, under, few) =
      drop_oldest_bounds kb (max_ranges - 1) c.bytes c.ranges v.counted v.bytes_fit in
    rw (release, keep_range, fits)
      (record {
        gone = d.gone;
        kept = d.kept;
        oldest_go = gone-append-kept kb (max_ranges - 1) c.bytes c.ranges;
        to_os = refl;
        newest_stay = refl;
        fits = omega arith;
        few = omega arith;
        most = λ xs ys e s n.
            drop_oldest_least kb (max_ranges - 1) c.bytes c.ranges xs ys v.counted v.bytes_fit e
              (omega arith) (omega arith);
        counted = omega (arith, sum-append d.kept (r ∷ []), v.limit_fits);
        same_limit = refl;
      })

-- A range within the limit that is given back is offered to the OS and then kept as the newest
-- one; the oldest of the others go back to the OS in their order and the rest stay in theirs,
-- which fit beside it and are as many of the newest as can, and the account and the limit are
-- right. A range over the limit goes back to the OS, and the cache stays as it was. The account
-- of the cache was right.
pub release-Released : (r : Range) (c : Cache) → Inv c → Released r c (release r c)
unfolding release keep_range
release-Released r c v = elim (dec_lt c.limit r.bytes) [
  | no fits ↦ keeps (omega arith) (release-Evicted r c v (omega arith))
  | yes over ↦
      let too_large : leb r.bytes c.limit ≡ false = ground arith in
      rw (release, keep_range, too_large) (refuses over)
]
