-- ===== src/Ecs/Allocator/Invariant.antt =====
-- The invariant of `EntityAllocator` of entity.hpp, over the entities that exist and those that were
-- destroyed, in the order of the calls.
use structured_chaos.Prelude.{
  ℕ, ◌+◌, ◌-◌, ◌/◌, ◌^◌, ◌≤◌, ◌<◌, ◌≡◌, ◌≢◌, List, some, ◌==◌, if◌then◌else◌, All, length,
}
use structured_chaos.Ecs.Entity.{page_size, index_of, generation_of, page_of}
use structured_chaos.Ecs.FreeList.Counts.{IsValid, count}
use structured_chaos.Ecs.Allocator.{Share, Area, Allocator, area_limit, page_count_limit, start_of}
use structured_chaos.Ecs.Allocator.Weights.{at, waiting, pages, share_count}

-- The indices of a share that were never handed out have no generation yet.
pub record ShareOk (generations : ℕ → ℕ) (s : Share) : Type 0 where
  pub ordered : s.next ≤ s.end
  pub short : s.end ≤ s.next + page_size
  pub zeros : (i : ℕ) → s.next ≤ i → i < s.end → generations i ≡ 0

pub record AreaOk (page_limit : ℕ) (generations : ℕ → ℕ) (a : Area) : Type 0 where
  pub free : IsValid a.free
  pub shares : (t : ℕ) → t < share_count → ShareOk generations (a.shares t)
  pub cursor : a.cursor < page_limit

-- The tables of pages and areas.
pub record TablesOk (s : Allocator) : Type 0 where
  pub areas_ok : (n : ℕ) (a : Area) → s.areas n ≡ some a → AreaOk s.page_limit s.generations a
  pub area_below : (n : ℕ) (a : Area) → s.areas n ≡ some a → n < s.area_count
  pub few_areas : s.area_count ≤ area_limit
  pub owner_area :
      (p : ℕ)
      → s.owners p ≢ 0
      → (s.owners p ≤ area_limit) × (a : Area) × (s.areas (s.owners p - 1) ≡ some a)
  pub page_within : (p : ℕ) → s.owners p ≢ 0 → p < s.page_limit
  pub limit : s.page_limit ≤ page_count_limit
  pub starts : (n : ℕ) → start_of n / 2 ^ s.start_shift < s.page_limit
  pub paged : (p : ℕ) → count (at p) s.order ≡ (if s.owners p == 0 then 0 else 1)

-- The weight of the indices of some entities.
abbrev pub index_weight : (ℕ → ℕ) → List ℕ → ℕ
index_weight w entities = count (λ e. w (index_of e)) entities

-- An entity that exists has the generation of its index.
pub record Current (owners generations : ℕ → ℕ) (e : ℕ) : Type 0 where
  pub same : generation_of e ≡ generations (index_of e)
  pub owned : owners (page_of (index_of e)) ≢ 0

-- An entity that was destroyed: the generation of its index went past it.
pub record Past (owners generations : ℕ → ℕ) (e : ℕ) : Type 0 where
  pub older : generation_of e < generations (index_of e)
  pub owned : owners (page_of (index_of e)) ≢ 0

pub record Inv (s : Allocator) (living ended : List ℕ) : Type 0 where
  pub tables : TablesOk s
  pub balance : (w : ℕ → ℕ) → waiting w s + index_weight w living ≡ pages w s.order
  pub current : All (Current s.owners s.generations) living
  pub past : All (Past s.owners s.generations) ended
  pub few : (i : ℕ) → s.generations i ≤ length ended
