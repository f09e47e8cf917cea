-- ===== src/Memory/Arena.antt =====
-- `MonotonicResource` of src/sc/memory/monotonic_resource.hpp and monotonic_resource.cpp: memory handed
-- out from blocks of an upstream, and never taken back one by one. An address is a number below 2 ^ 64,
-- 0 is `nullptr`. An alignment is a power of two, given by its exponent. The destructors that
-- `m_cleanup` runs before a reset are those of CleanupList.antt, see ArenaPool.antt.
pub mod Threads
pub mod Fit
pub mod Regions
pub mod Invariant
pub mod Moves
pub mod Ranges
pub mod Blocks
pub mod Installing
pub mod Safety
mod Tests
use structured_chaos.Prelude.{
  ℕ, zero, suc, ◌+◌, ◌-◌, ◌*◌, ◌/◌, ◌%◌, ◌^◌, Bool, true, false, ◌&&◌, ◌||◌, List, [], ◌∷◌, ◌++◌,
  Option, none, some, ◌==◌, ltb, leb, if◌then◌else◌, word,
}

-- `MonotonicResource::Block`
pub record Block : Type 0 where
  pub ptr : ℕ
  pub size : ℕ
  pub alignment : ℕ

-- `DEFAULT_BLOCK_SIZE`
abbrev pub default_block_size : ℕ
default_block_size = 32 * 1024

-- The exponent of `alignof(std::max_align_t)`
abbrev pub max_align : ℕ
max_align = 4

-- The members but the mutex; `initial` has the pointer 0 without a caller buffer.
pub record Arena : Type 0 where
  pub current : ℕ
  pub end : ℕ
  pub blocks : List Block
  pub initial : Block
  pub block_size : ℕ

-- `(currentAddress + alignment - 1) & ~(alignment - 1)`
abbrev pub align_up : ℕ → ℕ → ℕ
align_up current k = (current + 2 ^ k - 1) % word / 2 ^ k * 2 ^ k

-- `fit`
unfoldable pub fit : ℕ → ℕ → ℕ → ℕ → Option ℕ
fit current end bytes k =
    let aligned = align_up current k in
    if current == 0
    then none
    else if ltb aligned current || ltb end aligned || ltb (end - aligned) bytes
    then none
    else some (current + (aligned - current))

-- `fitsNewBlock`
unfoldable pub fits_new_block : ℕ → ℕ → Arena → Bool
fits_new_block bytes k a =
    if leb a.block_size bytes
    then false
    else leb (2 ^ k) (2 ^ max_align) || leb (2 ^ k) (a.block_size - bytes)

-- `installRange`, when no other thread allocates
abbrev pub install_range : ℕ → ℕ → Arena → Arena
install_range ptr size a =
    if ptr == 0 || size == 0
    then record a { current = 0; end = 0 }
    else record a { end = ptr + size - 1; current = ptr }

-- The blocks that `reset` keeps: the first one, if it is not an extra one.
unfoldable pub kept_blocks : Block → List Block → List Block
kept_blocks initial [] = []
kept_blocks initial (b ∷ bs) = if initial.ptr == 0 then b ∷ [] else []

-- The range that `reset` and `release` start over in.
unfoldable pub start_over : List Block → Arena → Arena
start_over [] a = install_range a.initial.ptr a.initial.size a
start_over (b ∷ bs) a =
    if a.initial.ptr == 0
    then install_range b.ptr b.size a
    else install_range a.initial.ptr a.initial.size a

-- `reset`, less the destructors
unfoldable pub reset : Arena → Arena
unfolding kept_blocks start_over
reset a = let kept = kept_blocks a.initial a.blocks in start_over kept (record a { blocks = kept })

-- `release`, less the destructors
unfoldable pub release : Arena → Arena
unfolding start_over
release a = start_over [] (record a { blocks = [] })

-- The constructor with a buffer of the caller.
unfoldable pub init_buffer : ℕ → ℕ → Arena
init_buffer ptr size = install_range ptr size (record {
  current = 0;
  end = 0;
  blocks = [];
  initial = record { ptr = ptr; size = size; alignment = 2 ^ max_align };
  block_size = if size == 0 then default_block_size else size * 2 % word;
})

-- The constructor with a block size, for the block that the upstream gives.
unfoldable pub init : ℕ → ℕ → Arena
init size ptr =
    let block_size = if size == 0 then default_block_size else size in
    install_range ptr block_size (record {
      current = 0;
      end = 0;
      blocks = record { ptr = ptr; size = block_size; alignment = 2 ^ max_align } ∷ [];
      initial = record { ptr = 0; size = 0; alignment = 0 };
      block_size = block_size;
    })

-- The bytes that `allocateSpan` asks for: none for `std::bad_alloc`.
unfoldable pub span_bytes : ℕ → ℕ → Option ℕ
span_bytes count size = if ltb ((word - 1) / size) count then none else some (count * size % word)
