-- ===== src/Ecs/Entity.antt =====
-- The entities of src/sc/ecs/entity.hpp: an index below, and above it the generation of the index.
-- Both are `uint32_t`, so `|` of the shifted generation and the index is their sum.
use structured_chaos.Prelude.{ℕ, ◌+◌, ◌-◌, ◌*◌, ◌/◌, ◌%◌, ◌^◌, ◌<◌, ◌≡◌, ◌≢◌, arith}

-- `PAGE_SIZE`, as 1 << PAGE_BITS
abbrev pub page_size : ℕ
page_size = 2 ^ 12

-- `INDEX_LIMIT`
abbrev pub index_limit : ℕ
index_limit = 2 ^ 32 - 1 - page_size + 1

-- `indexOf`
unfoldable pub index_of : ℕ → ℕ
index_of entity = entity % 2 ^ 32

-- `generationOf`
unfoldable pub generation_of : ℕ → ℕ
generation_of entity = entity / 2 ^ 32 % 2 ^ 32

-- `makeEntity`
unfoldable pub make_entity : ℕ → ℕ → ℕ
make_entity index generation = generation * 2 ^ 32 + index

-- `null`
abbrev pub null : ℕ
null = 2 ^ 64 - 1

-- The page of an index, as index >> PAGE_BITS
abbrev pub page_of : ℕ → ℕ
page_of index = index / 2 ^ 12

-- indexOf and generationOf give back the index and the generation that makeEntity was given, both
-- below 2^32, and the entity fits into 64 bits.
pub make_entity_parts :
    (index generation : ℕ)
    → index < 2 ^ 32
    → generation < 2 ^ 32
    → (index_of (make_entity index generation) ≡ index)
      × (generation_of (make_entity index generation) ≡ generation)
      × (make_entity index generation < 2 ^ 64)
unfolding index_of generation_of make_entity
make_entity_parts index generation h k = omega arith

-- makeEntity of the index and the generation of an entity of 64 bits is that entity.
pub entity_of_parts :
    (entity : ℕ) → entity < 2 ^ 64 → make_entity (index_of entity) (generation_of entity) ≡ entity
unfolding index_of generation_of make_entity
entity_of_parts entity h = omega arith

-- An entity whose index is below INDEX_LIMIT is not null, whatever its generation of 32 bits.
pub make_entity-ne-null :
    (index generation : ℕ)
    → index < index_limit
    → generation < 2 ^ 32
    → make_entity index generation ≢ null
unfolding make_entity
make_entity-ne-null index generation h k = omega arith
