-- ===== src/Ecs/Allocator/Tests.antt =====
-- Runs of an entity allocator of entity.hpp with four pages, and its theorems at them.
use structured_chaos.Prelude.{
  ◌+◌, ◌*◌, ◌^◌, ◌<◌, ◌≡◌, ◌≢◌, refl, true, false, [], ◌∷◌, arith, All, some, ◌==◌, if◌then◌else◌,
}
use structured_chaos.Ecs.Entity.{index_of, generation_of, make_entity, page_of, make_entity_parts}
use structured_chaos.Ecs.FreeList.Counts.{IsValid}
use structured_chaos.Ecs.FreeList.{
  FreeList, take_chunk, open_list, last_full, append_last, add_index, give,
}
use structured_chaos.Ecs.Allocator.{
  Allocator, created, no_index_left, init, reverse_bits, start_of, find_page, from_chunk,
  from_new_page, create_held, get_area, create, valid, destroy,
}
use structured_chaos.Ecs.Allocator.Alive.{alive, alive-length}
use structured_chaos.Ecs.Allocator.Lifetimes.{
  Reach, living_valid, ended_invalid, living_distinct, all_accounted, create_fresh, create_full,
}
use structured_chaos.Ecs.Allocator.Weights.{at, waiting}
use structured_chaos.Ecs.Allocator.Invariant.{index_weight}

abbrev one_made : Allocator
one_made = (create 0 0 (init 2)).1

abbrev one_gone : Allocator
one_gone = destroy 0 one_made

abbrev made_again : Allocator
made_again = (create 0 0 one_gone).1

create_first : (create 0 0 (init 2)).0 ≡ created 0
unfolding create create_held get_area from_new_page find_page init start_of reverse_bits make_entity
    take_chunk
create_first = refl

create_in_other_area : (create 0 1 one_made).0 ≡ created (2 * 4096)
unfolding create create_held get_area from_new_page find_page init start_of reverse_bits make_entity
    take_chunk
create_in_other_area = refl

create_after_destroy : (create 0 0 one_gone).0 ≡ created (2 ^ 32)
unfolding create create_held get_area from_new_page from_chunk find_page init start_of reverse_bits
    make_entity destroy index_of generation_of give open_list add_index append_last last_full
    take_chunk
create_after_destroy = refl

one_made-Reach : Reach 2 one_made (0 ∷ []) []
unfolding create create_held get_area from_new_page find_page init start_of reverse_bits make_entity
    take_chunk
one_made-Reach = Reach.creates 0 0 Reach.started

one_gone-Reach : Reach 2 one_gone [] (0 ∷ [])
one_gone-Reach = Reach.destroys [] 0 [] (omega arith) one_made-Reach

made_again-Reach : Reach 2 made_again (2 ^ 32 ∷ []) (0 ∷ [])
unfolding create create_held get_area from_new_page from_chunk find_page init start_of reverse_bits
    make_entity destroy index_of generation_of give open_list add_index append_last last_full
    take_chunk
made_again-Reach = Reach.creates 0 0 one_gone-Reach

-- Two entities of two areas.
abbrev two_made : Allocator
two_made = (create 0 1 one_made).1

two_made-Reach : Reach 2 two_made (8192 ∷ 0 ∷ []) []
unfolding create create_held get_area from_new_page find_page init start_of reverse_bits make_entity
    take_chunk
two_made-Reach = Reach.creates 0 1 one_made-Reach

-- One page, whose indices all went to the first thread.
abbrev one_page : Allocator
one_page = (create 0 0 (init 0)).1

one_page-Reach : Reach 0 one_page (0 ∷ []) []
unfolding create create_held get_area from_new_page find_page init start_of reverse_bits make_entity
    take_chunk
one_page-Reach = Reach.creates 0 0 Reach.started

one_page-limit : 0 < one_page.page_limit
unfolding create create_held get_area from_new_page find_page init start_of reverse_bits make_entity
    take_chunk
one_page-limit = omega arith

one_page-full : (create 1 0 one_page).0 ≡ no_index_left
unfolding create create_held get_area from_new_page find_page init start_of reverse_bits make_entity
    take_chunk
one_page-full = refl

living_valid_example : All (λ e. valid e two_made ≡ true) (8192 ∷ 0 ∷ [])
living_valid_example = living_valid two_made-Reach

ended_invalid_example : All (λ e. valid e made_again ≡ false) (0 ∷ [])
ended_invalid_example = ended_invalid made_again-Reach

living_distinct_example : All (λ other. index_of 8192 ≢ index_of other) (0 ∷ [])
living_distinct_example = living_distinct [] 8192 (0 ∷ []) two_made-Reach

all_accounted_example :
    waiting (at 5) two_made + index_weight (at 5) (8192 ∷ 0 ∷ [])
    ≡ (if two_made.owners (page_of 5) == 0 then 0 else 1)
all_accounted_example = all_accounted 5 two_made-Reach

create_fresh_example :
    All (λ old. 2 ^ 32 ≢ old) []
    × All (λ old. 2 ^ 32 ≢ old) (0 ∷ [])
    × (valid (2 ^ 32) (create 0 0 one_gone).1 ≡ true)
create_fresh_example = create_fresh 0 0 one_gone-Reach create_after_destroy

create_full_example : one_page.owners 0 ≢ 0
create_full_example = create_full 1 0 one_page-Reach one_page-full 0 one_page-limit

-- A list with one chunk to take, and one that was taken.
abbrev short : FreeList
short = record { left = 1; chunks = (5 ∷ 6 ∷ []) ∷ (7 ∷ []) ∷ []; published = 2 }

short-IsValid : IsValid short
short-IsValid = record {
  within = omega arith;
  shown = refl;
  filled = ((omega arith, omega arith), ((omega arith, omega arith), tt));
}

short-take : take_chunk short ≡ some (5 ∷ 6 ∷ [], record short { left = 0 })
unfolding take_chunk
short-take = refl

make_entity_parts_example :
    (index_of (make_entity 8192 3) ≡ 8192)
    × (generation_of (make_entity 8192 3) ≡ 3)
    × (make_entity 8192 3 < 2 ^ 64)
make_entity_parts_example = make_entity_parts 8192 3 (omega arith) (omega arith)

alive-length_example : alive two_made ≡ 2
alive-length_example = alive-length two_made-Reach (omega arith)
