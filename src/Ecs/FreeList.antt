-- ===== src/Ecs/FreeList.antt =====
-- `EntityAllocator::FreeList` of src/sc/ecs/entity.hpp: the indices that destroy gave back, in chunks.
-- A chunk is the list of its indices in the order they were given back; where its memory comes from
-- (`empty`, `all`, `fresh`) is not modelled. A take is one step, so `left` does not go below zero.
pub mod Counts
use structured_chaos.Prelude.{
  ℕ, zero, suc, ◌+◌, ◌-◌, Bool, true, false, List, [], ◌∷◌, ◌++◌, Option, none, some, ◌==◌, ltb,
  if◌then◌else◌, get_elem?, take, length,
}

-- `Chunk::CAPACITY`: four pages of 4096 bytes, less 16 bytes, in indices of 4 bytes.
abbrev pub capacity : ℕ
capacity = 4092

-- `FreeList`
pub record FreeList : Type 0 where
  pub left : ℕ
  pub chunks : List (List ℕ)
  pub published : ℕ

abbrev pub empty_list : FreeList
empty_list = record { left = 0; chunks = []; published = 0 }

-- `take`: the chunk, and the list without it.
unfoldable pub take_chunk : FreeList → Option (List ℕ × FreeList)
take_chunk f = if f.left == 0 then none else elim (get_elem? f.chunks (f.left - 1)) [
  | none ↦ none
  | some chunk ↦ some (chunk, record f { left = f.left - 1 })
]

-- `refill`
abbrev pub refill : List (List ℕ) → FreeList → FreeList
refill chunks f = record f { chunks = chunks; published = length chunks }

-- `open`
unfoldable pub open_list : FreeList → FreeList
open_list f = if ltb f.left f.published then refill (take f.left f.chunks) f else f

-- `fill == fillEnd`: there is no chunk, or the last one is full.
unfoldable pub last_full : List (List ℕ) → Bool
last_full [] = true
last_full (c ∷ []) = length c == capacity
last_full (c ∷ d ∷ rest) = last_full (d ∷ rest)

-- `*fill++ = index`
unfoldable pub append_last : ℕ → List (List ℕ) → List (List ℕ)
append_last index [] = []
append_last index (c ∷ []) = (c ++ (index ∷ [])) ∷ []
append_last index (c ∷ d ∷ rest) = c ∷ append_last index (d ∷ rest)

-- `extend`
abbrev pub extend : FreeList → FreeList
extend f = refill (f.chunks ++ ([] ∷ [])) f

-- `add`
unfoldable pub add_index : ℕ → FreeList → FreeList
add_index index f =
    let g = if last_full f.chunks then extend f else f in
    record g { chunks = append_last index g.chunks }

-- `close`
abbrev pub close_list : FreeList → FreeList
close_list f = record f { left = f.published }

-- `give`
unfoldable pub give : ℕ → FreeList → FreeList
give index f = close_list (add_index index (open_list f))
