-- ===== src/Memory/ArenaPool.antt =====
-- `ArenaPool` of src/sc/memory/arena_pool.cpp: arenas that were released, for the next acquire. Each call
-- is one step under its spin lock. The upstream gives a block at ptr for each new arena.
pub mod Cleared
pub mod Clean
mod Tests
use structured_chaos.Prelude.{
  ℕ, zero, suc, ◌*◌, List, [], ◌∷◌, Option, none, some, ltb, if◌then◌else◌, min, length,
}
use structured_chaos.Memory.Arena.{Arena, init, reset}
use structured_chaos.Memory.CleanupList.{CleanupList, empty_list, run_all}

-- `MAX_KEPT_ARENAS`
abbrev pub max_kept_arenas : ℕ
max_kept_arenas = 1024

-- `DEFAULT_ARENA_SIZE`
abbrev pub default_arena_size : ℕ
default_arena_size = 16 * 1024

-- `MonotonicResource` with `m_cleanup`.
pub record Resource : Type 0 where
  pub arena : Arena
  pub cleanup : CleanupList

-- `std::make_unique<MonotonicResource>(size)`, for the block that the upstream gives.
abbrev pub new_resource : ℕ → ℕ → Resource
new_resource size ptr = record { arena = init size ptr; cleanup = empty_list }

-- What the destructors of the objects do: what each remembers, and what the arena is like after some ran,
-- as they may allocate from it.
pub record Destructors : Type 0 where
  pub made : ℕ → List ℕ
  pub arena_after : List ℕ → Arena → Arena

-- `MonotonicResource::reset`: `m_cleanup.runAll()`, for so many rounds of at most so many nodes, and then
-- the blocks.
unfoldable pub reset_resource : Destructors → ℕ → ℕ → Resource → Option Resource
unfolding reset run_all
reset_resource d nodes rounds r = elim (run_all d.made nodes rounds r.cleanup) [
  | none ↦ none
  | some (cleanup, destroyed) ↦
      some (record { arena = reset (d.arena_after destroyed r.arena); cleanup = cleanup })
]

-- `ArenaPool`, with the back of the vector first.
pub record Pool : Type 0 where
  pub arena_size : ℕ
  pub arenas : List Resource

-- The loop of the constructor, for so many arenas.
unfoldable pub new_arenas : (ℕ → ℕ) → ℕ → ℕ → List Resource
new_arenas ptr size zero = []
new_arenas ptr size (suc n) = new_resource size (ptr n) ∷ new_arenas ptr size n

-- The constructor
abbrev pub new_pool : (ℕ → ℕ) → ℕ → ℕ → Pool
new_pool ptr pool_size arena_size = record {
  arena_size = arena_size;
  arenas = new_arenas ptr arena_size (min pool_size max_kept_arenas);
}

-- `acquire`
unfoldable pub acquire : ℕ → Pool → Resource × Pool
acquire ptr p = elim p.arenas [
  | [] ↦ (new_resource p.arena_size ptr, p)
  | r ∷ rest ↦ (r, record p { arenas = rest })
]

-- `release`: the pool, and the arena that is freed; none if the fuel of `runAll` is not enough.
unfoldable pub release :
    Destructors → ℕ → ℕ → Option Resource → Pool → Option (Pool × Option Resource)
unfolding reset_resource
release d nodes rounds none p = some (p, none)
release d nodes rounds (some r) p = elim (reset_resource d nodes rounds r) [
  | none ↦ none
  | some kept ↦ some (
      if ltb (length p.arenas) max_kept_arenas
      then (record p { arenas = kept ∷ p.arenas }, none)
      else (p, some kept))
]
