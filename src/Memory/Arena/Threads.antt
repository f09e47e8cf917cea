-- ===== src/Memory/Arena/Threads.antt =====
-- Threads that allocate from a `MonotonicResource` of monotonic_resource.hpp at the same time: one access
-- of `m_current` or `m_end` is one step, and the mutex is held by one thread. The upstream gives blocks
-- that overlap none of those that it gave before and still has not got back, nor the buffer of the caller.
use structured_chaos.Prelude.{
  ℕ, ◌+◌, ◌-◌, ◌^◌, ◌≤◌, ◌≡◌, ◌≢◌, ◌⊎◌, true, false, List, [], ◌∷◌, ◌++◌, Option, none, some, ◌==◌,
  if◌then◌else◌, write, All, word,
}
use structured_chaos.Memory.Arena.{Block, Arena, max_align, fit, fits_new_block, reset, release}

-- Where a thread is in `allocate` and `handleFullBlock`, with what it read.
pub data Local : Type 0 where
  idle : Local
  asks : ℕ → ℕ → Local
  has_current : ℕ → ℕ → ℕ → Local
  has_both : ℕ → ℕ → ℕ → ℕ → Local
  locked : ℕ → ℕ → Local
  has_current_locked : ℕ → ℕ → ℕ → Local
  full_block : ℕ → ℕ → Local
  got_block : ℕ → ℕ → ℕ → Local
  no_range : ℕ → ℕ → ℕ → Local
  has_end : ℕ → ℕ → ℕ → Local

-- What `allocate` gave: an address and the bytes there.
pub record Given : Type 0 where
  pub address : ℕ
  pub bytes : ℕ

pub record State : Type 0 where
  pub arena : Arena
  pub owner : Option ℕ
  pub locals : ℕ → Local
  pub given : List Given

abbrev pub go_to : ℕ → Local → State → State
go_to t l s = record s { locals = write s.locals t l }

-- All blocks that there are, the buffer of the caller included.
abbrev pub all_blocks : Arena → List Block
all_blocks a = if a.initial.ptr == 0 then a.blocks else a.initial ∷ a.blocks

abbrev pub Apart : ℕ → ℕ → Block → Type 0
Apart ptr size b = (ptr + size ≤ b.ptr) ⊎ (b.ptr + b.size ≤ ptr)

-- What the upstream may give.
pub record Fresh (ptr size : ℕ) (a : Arena) : Type 0 where
  pub there : ptr ≢ 0
  pub within : ptr + size ≤ word
  pub apart : All (λ b. Apart ptr size b) (all_blocks a)

-- `m_blocks.emplace_back` of `allocateBlock`
abbrev pub add_block : ℕ → ℕ → ℕ → State → State
add_block ptr size alignment s = record s {
  arena = record s.arena {
    blocks = s.arena.blocks ++ (record { ptr = ptr; size = size; alignment = alignment } ∷ []);
  };
}

abbrev pub set_current : ℕ → State → State
set_current c s = record s { arena = record s.arena { current = c } }

abbrev pub set_end : ℕ → State → State
set_end e s = record s { arena = record s.arena { end = e } }

abbrev pub give_out : ℕ → ℕ → State → State
give_out address bytes s = record s {
  given = record { address = address; bytes = bytes } ∷ s.given;
}

pub data Step (s : State) : State → Type 0 where
  calls : (t b k : ℕ) → s.locals t ≡ idle → Step s (go_to t (asks b k) s)
  reads_current :
      (t : ℕ) {b k : ℕ}
      → s.locals t ≡ asks b k
      → Step s (go_to t (has_current b k s.arena.current) s)
  reads_end :
      (t : ℕ) {b k c : ℕ}
      → s.locals t ≡ has_current b k c
      → Step s (go_to t (has_both b k c s.arena.end) s)
  takes :
      (t : ℕ) {b k c e p : ℕ}
      → s.locals t ≡ has_both b k c e
      → fit c e b k ≡ some p
      → s.arena.current ≡ c
      → Step s (go_to t idle (give_out p b (set_current (p + b) s)))
  fails :
      (t : ℕ) {b k c e p : ℕ}
      → s.locals t ≡ has_both b k c e
      → fit c e b k ≡ some p
      → Step s (go_to t (asks b k) s)
  takes_custom :
      (t ptr : ℕ) {b k c e : ℕ}
      → s.locals t ≡ has_both b k c e
      → fit c e b k ≡ none
      → fits_new_block b k s.arena ≡ false
      → s.owner ≡ none
      → Fresh ptr b s.arena
      → Step s (go_to t idle (give_out ptr b (add_block ptr b (2 ^ k) s)))
  locks :
      (t : ℕ) {b k c e : ℕ}
      → s.locals t ≡ has_both b k c e
      → fit c e b k ≡ none
      → fits_new_block b k s.arena ≡ true
      → s.owner ≡ none
      → Step s (go_to t (locked b k) (record s { owner = some t }))
  reads_current_locked :
      (t : ℕ) {b k : ℕ}
      → s.locals t ≡ locked b k
      → Step s (go_to t (has_current_locked b k s.arena.current) s)
  finds_room :
      (t : ℕ) {b k c p : ℕ}
      → s.locals t ≡ has_current_locked b k c
      → fit c s.arena.end b k ≡ some p
      → Step s (go_to t (asks b k) (record s { owner = none }))
  finds_none :
      (t : ℕ) {b k c : ℕ}
      → s.locals t ≡ has_current_locked b k c
      → fit c s.arena.end b k ≡ none
      → Step s (go_to t (full_block b k) s)
  gets_block :
      (t ptr : ℕ) {b k : ℕ}
      → s.locals t ≡ full_block b k
      → Fresh ptr s.arena.block_size s.arena
      → Step s (go_to t (got_block b k ptr) (add_block ptr s.arena.block_size (2 ^ max_align) s))
  drops_range :
      (t : ℕ) {b k ptr : ℕ}
      → s.locals t ≡ got_block b k ptr
      → Step s (go_to t (no_range b k ptr) (set_current 0 s))
  stores_end :
      (t : ℕ) {b k ptr : ℕ}
      → s.locals t ≡ no_range b k ptr
      → Step s (go_to t (has_end b k ptr) (set_end (ptr + s.arena.block_size - 1) s))
  stores_start :
      (t : ℕ) {b k ptr : ℕ}
      → s.locals t ≡ has_end b k ptr
      → Step s (go_to t (asks b k) (set_current ptr (record s { owner = none })))
  upstream_fails :
      (t : ℕ) {b k : ℕ}
      → s.locals t ≡ full_block b k
      → Step s (go_to t idle (record s { owner = none }))
  custom_fails :
      (t : ℕ) {b k c e : ℕ}
      → s.locals t ≡ has_both b k c e
      → fit c e b k ≡ none
      → fits_new_block b k s.arena ≡ false
      → Step s (go_to t idle s)
  resets : ((t : ℕ) → s.locals t ≡ idle) → Step s (record s { arena = reset s.arena; given = [] })
  releases :
      ((t : ℕ) → s.locals t ≡ idle) → Step s (record s { arena = release s.arena; given = [] })
