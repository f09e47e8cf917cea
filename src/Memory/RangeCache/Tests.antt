-- ===== src/Memory/RangeCache/Tests.antt =====
-- Runs of range_cache.hpp on small caches, and its theorems at concrete caches.
use structured_chaos.Prelude.{ℕ, ◌≡◌, refl, true, [], ◌∷◌, Option, some, arith}
use structured_chaos.Memory.RangeCache.{
  Range, Cache, offers, releases, init, reserve, release, trim, store_limit, Calls, begin_limit,
  end_limit, drop_oldest, take_newest, keep_range, shrink,
}
use structured_chaos.Memory.RangeCache.Account.{Inv}
use structured_chaos.Memory.RangeCache.Reaching.{Step, Reach, Accounted, Reach-Accounted}
use structured_chaos.Memory.RangeCache.Order.{Released, release-Released}

abbrev range : ℕ → ℕ → Range
range a b = record { address = a; bytes = b }

-- Three ranges, two of them of the same size.
abbrev filled : Cache
filled = record { ranges = range 1 40 ∷ range 2 30 ∷ range 3 40 ∷ []; bytes = 110; limit = 120 }

abbrev os : ℕ → Option ℕ
os n = some 99

filled-Inv : Inv filled
filled-Inv = record {
  counted = refl;
  few = omega arith;
  bytes_fit = omega arith;
  limit_fits = omega arith;
}

reserve_takes_newest :
    reserve os 40 filled
    ≡ (some (3, true), record filled { ranges = range 1 40 ∷ range 2 30 ∷ []; bytes = 70 })
unfolding reserve take_newest
reserve_takes_newest = refl

release_drops_oldest : release (range 4 50) filled ≡ (
  offers (range 4 50) ∷ releases (range 1 40) ∷ [],
  record filled { ranges = range 2 30 ∷ range 3 40 ∷ range 4 50 ∷ []; bytes = 120 },
)
unfolding release keep_range drop_oldest
release_drops_oldest = refl

trim_empties : (trim filled).1 ≡ init 120
unfolding trim shrink drop_oldest
trim_empties = refl

-- A range is kept, and the limit is lowered; before it shrinks, the cache is over the limit.
abbrev lowered : Calls
lowered = begin_limit 40 (record { cache = (release (range 4 50) (init 120)).1; shrinks = [] })

over_limit : (lowered.cache.bytes ≡ 50) × (lowered.cache.limit ≡ 40)
unfolding store_limit release keep_range drop_oldest
over_limit = (refl, refl)

lowered-Reach : Reach os 120 lowered
lowered-Reach =
    Reach.later (Reach.later Reach.made (Step.releases (range 4 50)))
      (Step.begins_limit 40 (omega arith))

Reach-Accounted_example : Accounted (end_limit 40 lowered)
Reach-Accounted_example =
    Reach-Accounted {os = os} {limit = 120} (omega arith)
      (Reach.later lowered-Reach (Step.ends_limit 40 (omega arith)))

release-Released_example : Released (range 4 50) filled (release (range 4 50) filled)
release-Released_example = release-Released (range 4 50) filled filled-Inv
