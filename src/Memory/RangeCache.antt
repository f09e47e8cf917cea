-- ===== src/Memory/RangeCache.antt =====
-- src/sc/memory/range_cache.hpp: reserved ranges that were given back, kept for the next reservation of
-- the same size. The array `m_ranges` is the list of its first `m_count` places, oldest first. Each
-- operation holds `m_mutex` while it changes the cache, so what it does under the lock is one step;
-- `limit(bytes)` takes the lock twice and is two. What goes to the OS is the list of calls that an
-- operation makes, in order.
pub mod Account
pub mod Reaching
pub mod Order
mod Tests
use structured_chaos.Prelude.{
  ℕ, suc, ◌-◌, ◌*◌, ◌^◌, Bool, true, false, ◌||◌, List, [], ◌∷◌, ◌++◌, map, Option, none, some, ltb,
  leb, ◌==◌, if◌then◌else◌, length, add_size, sub_size,
}

-- `Range`
pub record Range : Type 0 where
  pub address : ℕ
  pub bytes : ℕ

-- `RangeCache`
pub record Cache : Type 0 where
  pub ranges : List Range
  pub bytes : ℕ
  pub limit : ℕ

-- The calls of virtual_memory.hpp that the cache makes.
pub data OsCall : Type 0 where
  offers : Range → OsCall
  releases : Range → OsCall

abbrev pub default_limit : ℕ
default_limit = 64 * 2 ^ 20

abbrev pub max_ranges : ℕ
max_ranges = 64

-- The constructor.
abbrev pub init : ℕ → Cache
init limit = record { ranges = []; bytes = 0; limit = limit }

-- What `dropOldest` puts into `gone`, leaves in `m_ranges`, and leaves in `m_bytes`.
pub record Dropped : Type 0 where
  pub gone : List Range
  pub kept : List Range
  pub bytes : ℕ

-- The loop of `dropOldest`, one range of the front at a time.
unfoldable pub drop_oldest : ℕ → ℕ → ℕ → List Range → Dropped
drop_oldest keep_bytes keep_ranges bytes [] = record { gone = []; kept = []; bytes = bytes }
drop_oldest keep_bytes keep_ranges bytes (r ∷ rs) =
    let rest = drop_oldest keep_bytes keep_ranges (sub_size bytes r.bytes) rs in
    if ltb keep_bytes bytes || ltb keep_ranges (length (r ∷ rs))
    then record rest { gone = r ∷ rest.gone }
    else record { gone = []; kept = r ∷ rs; bytes = bytes }

-- The loop of `reserve`: the last range of the size, and the others in their order.
unfoldable pub take_newest : ℕ → List Range → Option (ℕ × List Range)
take_newest bytes [] = none
take_newest bytes (r ∷ rs) = elim (take_newest bytes rs) [
  | some (address, others) ↦ some (address, r ∷ others)
  | none ↦ if r.bytes == bytes then some (r.address, rs) else none
]

-- `reserve`: the address with the flag `kept`, `none` for std::bad_alloc. The argument `os` is
-- what memory::reserve gives for a number of bytes.
unfoldable pub reserve : (ℕ → Option ℕ) → ℕ → Cache → Option (ℕ × Bool) × Cache
reserve os bytes c = elim (take_newest bytes c.ranges) [
  | some (address, others) ↦
      (some (address, true), record c { ranges = others; bytes = sub_size c.bytes bytes })
  | none ↦ (elim (os bytes) [ some address ↦ some (address, false) | none ↦ none ], c)
]

-- The part of `release` that runs under the lock: the ranges that go, and the cache.
unfoldable pub keep_range : Range → Cache → List Range × Cache
keep_range r c =
    let d = drop_oldest (c.limit - r.bytes) (max_ranges - 1) c.bytes c.ranges in
    if leb r.bytes c.limit
    then (d.gone, record c { ranges = d.kept ++ (r ∷ []); bytes = add_size d.bytes r.bytes })
    else (r ∷ [], c)

-- `release`
unfoldable pub release : Range → Cache → List OsCall × Cache
release r c = let (gone, c') = keep_range r c in (offers r ∷ map releases gone, c')

-- `shrink`
unfoldable pub shrink : ℕ → Cache → List OsCall × Cache
shrink keep c =
    let d = drop_oldest keep max_ranges c.bytes c.ranges in
    (map releases d.gone, record c { ranges = d.kept; bytes = d.bytes })

-- `trim`, which the destructor calls as well.
unfoldable pub trim : Cache → List OsCall × Cache
trim c = shrink 0 c

-- `limit(bytes)` under its first lock; `shrink bytes` follows.
unfoldable pub store_limit : ℕ → Cache → Cache
store_limit bytes c = record c { limit = bytes }

-- The cache with the calls of `limit` that changed it and have not shrunk it yet, by the limit that each
-- was given.
pub record Calls : Type 0 where
  pub cache : Cache
  pub shrinks : List ℕ

-- The first call of the list with a limit is over.
abbrev pub without : ℕ → List ℕ → List ℕ
without bytes [] = []
without bytes (n ∷ ns) = if n == bytes then ns else n ∷ without bytes ns

-- The two locks of `limit(bytes)`.
abbrev pub begin_limit : ℕ → Calls → Calls
begin_limit bytes s = record { cache = store_limit bytes s.cache; shrinks = bytes ∷ s.shrinks }

abbrev pub end_limit : ℕ → Calls → Calls
end_limit bytes s = record { cache = (shrink bytes s.cache).1; shrinks = without bytes s.shrinks }
