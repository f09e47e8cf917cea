-- ===== src/Threading/RingQueue/Tests.antt =====
-- Runs of the queue of ring_queue.hpp: two slots, each a block of its own, so that memory is given back.
use structured_chaos.Prelude.{
  ℕ, zero, suc, ◌+◌, ◌*◌, ◌<◌, ◌≡◌, ◌≢◌, refl, some, none, arith, Bool, true, get_elem?, [], ◌∷◌,
  write,
}
use structured_chaos.Threading.RingQueue.{
  Sizes, ceil_from, floor_from, sizes, slot_of, lap_of, granule_of, has_lap, wrote, placed, won,
  moved, emptied, last, discards, turns_lap, done, idle, at_head, saw_lap, saw_item, Queue, init,
  push_goes, pop_goes, look_goes, store_item, store_state, discard_memory, take_tail, count_pop,
  destroy, takes_tail, finds_lap, constructs, sets_state, reads_head, sees_lap, sees_item, wins,
  moves_out, clears_state, counts, resets_pops, discards_memory, turns, Reach, started, later, size,
}
use structured_chaos.Threading.RingQueue.Geometry.{Fits}
use structured_chaos.Threading.RingQueue.Safety.{
  slots-apart, storage-Right, discarded-Empty, waits-Served,
}
use structured_chaos.Threading.RingQueue.Fifo.{
  FifoStep, enqueue, view, Step-refines-Fifo, popped-get_elem?,
}
use structured_chaos.Threading.RingQueue.Alone.{Ends}
use structured_chaos.Threading.RingQueue.Taking.{head-Ends}
use structured_chaos.Threading.RingQueue.Measures.{sizes-Fits}
use structured_chaos.Threading.RingQueue.Destroying.{destroy-waiting}

abbrev ring : Sizes
ring = sizes 2 65536

ring_sizes : ring ≡ record {
  real_cap = 2;
  slots_per_block = 1;
  num_blocks = 2;
  reclaim = true;
  granule_slots = 1;
  num_granules = 2;
}
unfolding sizes ceil_from floor_from
ring_sizes = refl

large_sizes : sizes 4096 128 ≡ record {
  real_cap = 4096;
  slots_per_block = 512;
  num_blocks = 8;
  reclaim = true;
  granule_slots = 512;
  num_granules = 8;
}
unfolding sizes ceil_from floor_from
large_sizes = refl

ring-Fits : Fits ring
ring-Fits = (sizes-Fits 2 65536).0

abbrev pushed : ℕ → ℕ → Queue → Queue
pushed p x q = push_goes p placed (
    store_state ring p 1
      (push_goes p wrote (store_item ring p (some x) (push_goes p has_lap (take_tail x q)))))

-- Two pushes.
abbrev full : Queue
full = pushed 1 8 (pushed 0 7 init)

full_reached : Reach ring full
unfolding sizes ceil_from floor_from slot_of lap_of granule_of
full_reached =
    later
      (later
        (later
          (later
            (later
              (later (later (later started (takes_tail 7 (omega arith))) (finds_lap 0 refl refl))
                (constructs 0 refl))
              (sets_state 0 refl))
            (takes_tail 8 (omega arith)))
          (finds_lap 1 refl refl))
        (constructs 1 refl))
      (sets_state 1 refl)

abbrev taken : Queue
taken = look_goes 3 idle (
    pop_goes 0 won
      (record (look_goes 3 (saw_item 0) (look_goes 3 (saw_lap 0) (look_goes 3 (at_head 0) full))) {
        head = 1;
      }))

taken_reached : Reach ring taken
unfolding sizes ceil_from floor_from slot_of lap_of granule_of
taken_reached =
    later
      (later (later (later full_reached (reads_head 3 refl)) (sees_lap 3 refl refl))
        (sees_item 3 refl (λ e. omega arith)))
      (wins 3 refl refl)

abbrev emptied_slot : Queue
emptied_slot =
    pop_goes 0 (emptied 7)
      (store_state ring 0 0 (pop_goes 0 (moved 7) (store_item ring 0 none taken)))

-- The pop counts itself, as the last one of its block.
abbrev counted : Queue
counted = pop_goes 0 (last 7) (record emptied_slot { pops = write emptied_slot.pops 0 1 })

counted_reached : Reach ring counted
unfolding sizes ceil_from floor_from slot_of lap_of granule_of count_pop
counted_reached =
    later (later (later taken_reached (moves_out 0 refl refl)) (clears_state 0 refl))
      (counts 0 refl)

-- It resets the counter, and is about to give the memory back.
abbrev discarding : Queue
discarding = pop_goes 0 (discards 7) (record counted { pops = write counted.pops 0 0 })

discarding_reached : Reach ring discarding
unfolding sizes ceil_from floor_from slot_of lap_of granule_of
discarding_reached = later counted_reached (resets_pops 0 refl)

abbrev all_cleared : ℕ → Bool
all_cleared i = true

abbrev discarded : Queue
discarded =
    pop_goes 0 (turns_lap 7) (discard_memory ring (granule_of ring 0) all_cleared discarding)

abbrev turned : Queue
turned = pop_goes 0 (done 7) (record discarded { laps = write (λ _. 0) 0 1 })

turned_reached : Reach ring turned
unfolding sizes ceil_from floor_from slot_of lap_of granule_of
turned_reached =
    later (later discarding_reached (discards_memory 0 all_cleared refl)) (turns 0 refl)

abbrev waiting : Queue
waiting = take_tail 9 turned

waiting_reached : Reach ring waiting
waiting_reached = later turned_reached (takes_tail 9 (omega arith))

slots-apart_example : slot_of ring 0 ≢ slot_of ring 1
slots-apart_example =
    slots-apart ring-Fits full_reached 0 1 (λ e. omega arith) (omega arith) (omega arith)
      (omega arith) (omega arith)

storage-Right_example :
    ((taken.calls 0).push ≡ has_lap
      → (taken.storage (slot_of ring 0) ≡ none) × (taken.states (slot_of ring 0) ≡ 0))
    × ((taken.calls 0).pop ≡ won → taken.storage (slot_of ring 0) ≡ some (taken.item 0))
storage-Right_example = storage-Right ring-Fits taken_reached 0

discarded-Empty_example :
    (discarding.states (granule_of ring 0 * ring.granule_slots + 0) ≡ 0)
    × (discarding.storage (granule_of ring 0 * ring.granule_slots + 0) ≡ none)
discarded-Empty_example = discarded-Empty ring-Fits discarding_reached 0 refl 0 ring-Fits.slots_pos

before :
    (o : ℕ)
    → o < 2
    → granule_of ring o ≡ granule_of ring 2
    → (x : ℕ) × ((waiting.calls o).pop ≡ done x)
unfolding sizes ceil_from floor_from granule_of
before zero l e = (7, refl)
before (suc zero) l e = absurd (omega arith)
before (suc (suc o)) l e = absurd (omega arith)

waits-Served_example : waiting.laps (granule_of ring 2) ≡ lap_of ring 2
waits-Served_example = waits-Served ring-Fits waiting_reached 2 refl before

Step-refines-Fifo_example : FifoStep (view turned) (enqueue 9) (view waiting)
Step-refines-Fifo_example = Step-refines-Fifo ring-Fits turned_reached (takes_tail 9 (omega arith))

popped-get_elem?_example : get_elem? (view turned).served 0 ≡ some 7
popped-get_elem?_example = popped-get_elem? ring-Fits turned_reached 0 refl

full_ended : (p : ℕ) → p < 2 → (full.calls p).push ≡ placed
full_ended zero l = refl
full_ended (suc zero) l = refl
full_ended (suc (suc p)) l = absurd (omega arith)

size_tests : (size 3 5 ≡ 2) × (size 5 3 ≡ 0)
unfolding size
size_tests = (refl, refl)

head-Ends_example :
    Ends ring 3 full.head (full.item full.head) (look_goes 3 (at_head full.head) full)
head-Ends_example = head-Ends ring-Fits full_reached 3 refl refl

destroy-waiting_example : destroy ring full ≡ some 7 ∷ some 8 ∷ []
destroy-waiting_example = destroy-waiting ring-Fits full_reached full_ended
