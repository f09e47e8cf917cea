-- ===== src/Lib.antt =====
-- StructuredChaos: a C++ library for games, of which this development models the parts that carry
-- its logic, with the theorems that make them correct.
--
-- Memory. `src/sc/memory/range_cache.hpp` (Memory/RangeCache.antt) keeps reserved ranges for the
-- next reservation of the same size. `RangeCache::reserve`, `release`, `trim` and `limit` are
-- `reserve`, `release`, `trim` and `begin_limit` with `end_limit`. What a call does under the
-- mutex is one step, so calls of several threads are steps in some order (`Reach` of
-- Memory/RangeCache/Reaching.antt); `limit` takes the mutex twice. The OS is a parameter (what a
-- new reservation gives) and a list of calls. `src/sc/memory/deferred.hpp`
-- (Memory/DeletionQueue.antt) calls functions some frames later. `push`, `beginFrame` and
-- `flushAll` are `push`, `begin_frame` and `flush_all`. A function is a name with the functions it
-- pushes while it is called. The loop that flushes a slot takes fuel; more than the number of
-- functions is enough.
--
-- `src/sc/memory/monotonic_resource.hpp` and `.cpp` hand memory out from blocks
-- (Memory/Arena.antt): `fit`, `fitsNewBlock`, `installRange`, `reset` and `release`.
-- Memory/Arena/Threads.antt has the threads: `Step` is one access of `m_current` or `m_end` by a
-- thread in `allocate` or `handleFullBlock`, with what the thread read so far; a store that ends
-- the mutex's scope is one step with the unlock. `Reach` (Memory/Arena/Safety.antt) is any order
-- of them. The upstream is a parameter: it gives blocks that overlap none that it has out
-- (`Fresh`), or fails.
--
-- `src/sc/memory/arena_pool.cpp` keeps arenas for their next owner (Memory/ArenaPool.antt):
-- `acquire` and `release`, over the same model of an arena with its `CleanupList`:
-- `reset_resource` runs the destructors, on fuel, and then resets the blocks. What the destructors
-- do is a parameter.
--
-- `src/sc/memory/cleanup_list.hpp` remembers the objects whose destructors a reset runs
-- (Memory/CleanupList.antt). `Step` is one access of `m_head` in `remember`, the weak
-- compare-exchange failing whenever it likes; `Reach` any order of them. `runAll` is `run_all`, on
-- fuel: so many rounds of its outer loop, each of at most so many nodes; `Ends`
-- (Memory/CleanupList/Running.antt) says which numbers are enough. What the destructor of an
-- object remembers is a parameter.
--
-- ECS. `SystemAccess` of `src/sc/ecs/scheduler.hpp` (Ecs/Access.antt) says what a system reads and
-- writes; `conflictsWith` is `conflicts_with` and `merge` is `merge`. The stages that
-- `Scheduler::run` goes through (Ecs/Stages.antt) come from the loops at the end of
-- `Scheduler::stagesFor`: `stageOf` is the second part of each pair in `assign`, `m_stages` is
-- `stages`. `Scheduler::effectiveAccess` is `effective_access` (Ecs/Effective.antt), its two inner
-- loops `take_emit` and `take_modified`, its outer one `run`, on fuel: one unit for each round and
-- each end of an inner loop. How much is enough is shown from the events and hooks whose turn has
-- not come (Ecs/Effective/Pending.antt). `SetOff` (Ecs/Effective/Reached.antt) is the independent
-- description of what a system sets off. `stagesFor` whole, with what it keeps from the last call
-- and each of its errors, is `stages_for` (Ecs/Planning.antt); an address is a number and
-- `nullptr` is `none`, and the text of the errors is left out.
--
-- Changes that systems record (`CommandList`) are done after a stage by `CommandApplier`, in the
-- same file. Ecs/Commands.antt records, Ecs/Commands/Applying.antt is `applyPage` with `kill`,
-- `flush` and `PageAdds`, Ecs/Commands/Applying/Spec.antt the changes done one by one,
-- Ecs/Commands/Applying/Pages.antt `applySpread`, Ecs/Commands/Apply.antt the choice between the
-- two. Columns are tables from an index to the component.
--
-- `forEachRelated` and `forEachDescendant` of `src/sc/ecs/relation.hpp` are `for_each_related` and
-- `for_each_descendant` (Ecs/Relations.antt), on fuel for the rounds of the loop. What `tryGet`
-- gives is a parameter. The hooks of `relate` are not modelled.
--
-- `src/sc/ecs/entity.hpp` hands entities out. `indexOf`, `generationOf` and `makeEntity` are
-- `index_of`, `generation_of` and `make_entity` (Ecs/Entity.antt). `EntityAllocator::FreeList`
-- keeps the indices that were given back in chunks (Ecs/FreeList.antt). The allocator
-- (Ecs/Allocator.antt) hands indices out from the chunk or the page that a thread holds in the
-- area, or from a new page: `create(area)` is `create`, `find`, `valid` and `destroy` have their
-- names. A thread is a number that says which share it uses. The loop of `makePage` tries
-- `m_pageLimit` pages, as the source does. An allocator's history is the relation `Reach`
-- (Ecs/Allocator/Lifetimes.antt), with the entities that exist and those that were destroyed; its
-- invariant (Ecs/Allocator/Invariant.antt) weighs the indices, and each operation has a file that
-- shows it keeps the invariant. `alive` counts them (Ecs/Allocator/Alive.antt). Making many
-- entities at once, destroying many at once and the memory that chunks and blocks lie in are not
-- modelled.
--
-- Threading. `src/sc/threading/parallel_for.hpp` calls a function for the items of a loop in
-- chunks (Threading/Loop.antt): `alone` is the loop without helpers, `Step` is one step of a
-- thread in `job.run`, which takes a chunk with `fetch_add`, calls the function, or ends the loop
-- after an exception. Thread 0 is the owner. `src/sc/threading/future_group.hpp` waits for futures
-- and collects them (Threading/FutureGroup.antt).
--
-- `src/sc/threading/ring_queue.hpp` is the queue of tasks (Threading/RingQueue.antt). `Sizes` are
-- its constants. `Step` is one access of a shared word: `take_tail` to `sets_state` are `place`,
-- `reads_head` to `wins` the loop of `tryPop`, `moves_out` to `turns` the rest of it with
-- `release`; `discards_memory` is `discardRingMemory`, after which any slots of the granule may
-- read as zero. A call that took a position is known by it. Positions are 64-bit counters, and a
-- step that would take the last one is left out. Threading/RingQueue/Invariant.antt says what
-- holds between the steps, Fifo.antt what queue the ring stands for and which action each access
-- should be (`action`), Alone.antt which accesses are those of one call of `tryPop` (`Own`).
--
-- Not modelled: the rest of the scheduler, columns, world, resources and relations; the rest of
-- the thread pool, its queues and the background lane; the objects that arenas destroy, and the
-- heap; Magpie, the file reader, stats, hashing and logging. The OS, mimalloc, spdlog, simdutf,
-- liburing and rapidhash are other projects' code. Weaker memory orders than sequential
-- consistency are not modelled: atomic operations are steps in one order.
mod Prelude
pub mod Memory
pub mod Ecs
pub mod Threading
