-- ===== src/Memory/Arena/Invariant.antt =====
-- The invariant of the threads that allocate from a `MonotonicResource` of monotonic_resource.hpp.
use structured_chaos.Prelude.{ℕ, ◌+◌, ◌-◌, ◌≤◌, ◌<◌, ◌≡◌, ◌≢◌, ◌⊎◌, some, All}
use structured_chaos.Memory.Arena.{Arena}
use structured_chaos.Memory.Arena.Threads.{
  Local, idle, asks, has_current, has_both, locked, has_current_locked, full_block, got_block,
  no_range, has_end, State, all_blocks,
}
use structured_chaos.Memory.Arena.Regions.{Inside, Separate}

-- The value of `m_current` that a thread read, 0 for none.
abbrev pub read_of : Local → ℕ
read_of idle = 0
read_of (asks b k) = 0
read_of (has_current b k c) = c
read_of (has_both b k c e) = c
read_of (locked b k) = 0
read_of (has_current_locked b k c) = 0
read_of (full_block b k) = 0
read_of (got_block b k ptr) = 0
read_of (no_range b k ptr) = 0
read_of (has_end b k ptr) = 0

-- A value that `m_current` had lies in a block, and is not one that it will take again.
abbrev pub Seen : Arena → ℕ → Type 0
Seen a c =
    c ≢ 0
    → Inside c (c + 1) (all_blocks a)
      × ((a.current ≡ 0) ⊎ (a.current ≡ c) ⊎ (c < a.current) ⊎ (a.end < c))

-- If `m_current` is what was read, the end that was read after it belongs to it.
abbrev pub EndOk : Arena → Local → Type 0
EndOk a idle = Unit {0}
EndOk a (asks b k) = Unit {0}
EndOk a (has_current b k c) = Unit {0}
EndOk a (has_both b k c e) = c ≢ 0 → a.current ≡ c → a.end ≡ e
EndOk a (locked b k) = Unit {0}
EndOk a (has_current_locked b k c) = Unit {0}
EndOk a (full_block b k) = Unit {0}
EndOk a (got_block b k ptr) = Unit {0}
EndOk a (no_range b k ptr) = Unit {0}
EndOk a (has_end b k ptr) = Unit {0}

-- A block that is to be the next range: nothing that was given or read lies in it.
pub record Reserved (s : State) (ptr : ℕ) : Type 0 where
  pub there : ptr ≢ 0
  pub some_bytes : 0 < s.arena.block_size
  pub holds : Inside ptr (ptr + s.arena.block_size) (all_blocks s.arena)
  pub given_apart :
      All (λ g. (g.address + g.bytes ≤ ptr) ⊎ (ptr + s.arena.block_size ≤ g.address)) s.given
  pub window_apart :
      s.arena.current ≢ 0
      → ((s.arena.current ≤ s.arena.end) × (s.arena.end < ptr))
        ⊎ (ptr + s.arena.block_size ≤ s.arena.current)
  pub reads_apart :
      (t : ℕ)
      → read_of (s.locals t) ≢ 0
      → (read_of (s.locals t) < ptr) ⊎ (ptr + s.arena.block_size ≤ read_of (s.locals t))

-- Where the thread with the mutex is.
abbrev pub StageOk : State → ℕ → Local → Type 0
StageOk s t idle = Unit {0}
StageOk s t (asks b k) = Unit {0}
StageOk s t (has_current b k c) = Unit {0}
StageOk s t (has_both b k c e) = Unit {0}
StageOk s t (locked b k) = (s.owner ≡ some t) × (0 < s.arena.block_size)
StageOk s t (has_current_locked b k c) = (s.owner ≡ some t) × (0 < s.arena.block_size)
StageOk s t (full_block b k) = (s.owner ≡ some t) × (0 < s.arena.block_size)
StageOk s t (got_block b k ptr) = (s.owner ≡ some t) × Reserved s ptr
StageOk s t (no_range b k ptr) = (s.owner ≡ some t) × Reserved s ptr × (s.arena.current ≡ 0)
StageOk s t (has_end b k ptr) =
    (s.owner ≡ some t)
    × Reserved s ptr
    × (s.arena.current ≡ 0)
    × (s.arena.end ≡ ptr + s.arena.block_size - 1)

pub record Inv (s : State) : Type 0 where
  pub window :
      s.arena.current ≢ 0
      → (s.arena.current ≤ s.arena.end)
        × Inside s.arena.current (s.arena.end + 1) (all_blocks s.arena)
  pub inside : All (λ g. Inside g.address (g.address + g.bytes) (all_blocks s.arena)) s.given
  pub outside :
      All
        (λ g.
          s.arena.current ≢ 0 → (g.address + g.bytes ≤ s.arena.current) ⊎ (s.arena.end ≤ g.address))
        s.given
  pub separate : Separate s.given
  pub seen : (t : ℕ) → Seen s.arena (read_of (s.locals t))
  pub ends : (t : ℕ) → EndOk s.arena (s.locals t)
  pub stages : (t : ℕ) → StageOk s t (s.locals t)
