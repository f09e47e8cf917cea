-- ===== src/Threading/RingQueue.antt =====
-- `RingQueue` of src/sc/threading/ring_queue.hpp: pushes and pops of any number of threads, one access of
-- a shared word at a time. A push, and a pop that won, is known by the position that it took; a pop that
-- has not won is known by its thread. `discardRingMemory` gives back the pages inside a granule: any of its
-- slots may read as zero afterwards.
pub mod Geometry
pub mod Counting
pub mod Invariant
pub mod Pushing
pub mod Popping
pub mod Winning
pub mod Turning
pub mod Discarding
pub mod Safety
pub mod Alone
pub mod Taking
pub mod Measures
pub mod Destroying
pub mod Fifo
mod Tests
use structured_chaos.Prelude.{
  ℕ, zero, suc, ◌+◌, ◌-◌, ◌*◌, ◌/◌, ◌%◌, ◌^◌, ◌<◌, ◌≡◌, ◌≢◌, Bool, true, false, ◌&&◌, Option, none,
  some, List, [], ◌∷◌, ◌==◌, ltb, leb, if◌then◌else◌, min, max, write, word, add_size, sub_size,
}

-- Sizes

-- The first power of two from `2 ^ k` on that is at least n, tried so many times.
unfoldable pub ceil_from : ℕ → ℕ → ℕ → ℕ
ceil_from n zero k = 2 ^ k
ceil_from n (suc fuel) k =
    let rest = ceil_from n fuel (suc k) in if leb n (2 ^ k) then 2 ^ k else rest

-- `std::bit_ceil` of a `size_t`
abbrev pub bit_ceil : ℕ → ℕ
bit_ceil n = ceil_from n 64 0

-- The last power of two from `2 ^ k` on that is at most n, tried so many times.
unfoldable pub floor_from : ℕ → ℕ → ℕ → ℕ
floor_from n zero k = 2 ^ k
floor_from n (suc fuel) k =
    let rest = floor_from n fuel (suc k) in if leb (2 ^ suc k) n then rest else 2 ^ k

-- `std::bit_floor` of a `size_t` that is not 0
abbrev pub bit_floor : ℕ → ℕ
bit_floor n = floor_from n 63 0

pub record Sizes : Type 0 where
  pub real_cap : ℕ
  pub slots_per_block : ℕ
  pub num_blocks : ℕ
  pub reclaim : Bool
  pub granule_slots : ℕ
  pub num_granules : ℕ

abbrev pub block_bytes : ℕ
block_bytes = 64 * 1024

unfoldable pub sizes : ℕ → ℕ → Sizes
sizes capacity slot_bytes =
    let cap = bit_ceil capacity in
    let per_block = min (bit_floor (max (block_bytes / slot_bytes) 1)) cap in
    let blocks = cap / per_block in
    let slots = if ltb 1 blocks then per_block else 1 in
    record {
      real_cap = cap;
      slots_per_block = per_block;
      num_blocks = blocks;
      reclaim = ltb 1 blocks;
      granule_slots = slots;
      num_granules = cap / slots;
    }

-- `pos & SLOT_MASK`
unfoldable pub slot_of : Sizes → ℕ → ℕ
slot_of z pos = pos % z.real_cap

-- `pos >> CAP_SHIFT`
unfoldable pub lap_of : Sizes → ℕ → ℕ
lap_of z pos = pos / z.real_cap

-- `(pos & SLOT_MASK) >> GRANULE_SHIFT`
unfoldable pub granule_of : Sizes → ℕ → ℕ
granule_of z pos = (pos % z.real_cap) / z.granule_slots

-- Calls

-- Where the push that takes a position is in `place`.
pub data Push : Type 0 where
  to_come : Push
  waits : Push
  has_lap : Push
  wrote : Push
  placed : Push

-- Where the pop that takes a position is in `tryPop` and `release`, with the item that it moved out.
pub data Pop : Type 0 where
  not_won : Pop
  won : Pop
  moved : ℕ → Pop
  emptied : ℕ → Pop
  last : ℕ → Pop
  discards : ℕ → Pop
  turns_lap : ℕ → Pop
  done : ℕ → Pop

-- Where a thread is in the loop of `tryPop`, with the position that it read from `m_head`.
pub data Look : Type 0 where
  idle : Look
  at_head : ℕ → Look
  saw_lap : ℕ → Look
  saw_item : ℕ → Look

pub record Calls : Type 0 where
  pub push : Push
  pub pop : Pop

-- The members of the queue, `state` and `storage` of its slots, and the calls under way; `item` is what
-- the push that took a position was called with.
pub record Queue : Type 0 where
  pub head : ℕ
  pub tail : ℕ
  pub laps : ℕ → ℕ
  pub pops : ℕ → ℕ
  pub states : ℕ → ℕ
  pub storage : ℕ → Option ℕ
  pub item : ℕ → ℕ
  pub calls : ℕ → Calls
  pub looks : ℕ → Look

abbrev pub init : Queue
init = record {
  head = 0;
  tail = 0;
  laps = λ _. 0;
  pops = λ _. 0;
  states = λ _. 0;
  storage = λ _. none;
  item = λ _. 0;
  calls = λ _. record { push = to_come; pop = not_won };
  looks = λ _. idle;
}

abbrev pub push_goes : ℕ → Push → Queue → Queue
push_goes p a q = record q { calls = write q.calls p (record { push = a; pop = (q.calls p).pop }) }

abbrev pub pop_goes : ℕ → Pop → Queue → Queue
pop_goes p b q = record q { calls = write q.calls p (record { push = (q.calls p).push; pop = b }) }

abbrev pub look_goes : ℕ → Look → Queue → Queue
look_goes t l q = record q { looks = write q.looks t l }

abbrev pub store_item : Sizes → ℕ → Option ℕ → Queue → Queue
store_item z p o q = record q { storage = write q.storage (slot_of z p) o }

abbrev pub store_state : Sizes → ℕ → ℕ → Queue → Queue
store_state z p v q = record q { states = write q.states (slot_of z p) v }

-- `m_tail.fetch_add(1)` of a push of x
abbrev pub take_tail : ℕ → Queue → Queue
take_tail x q =
    push_goes q.tail waits (record q { tail = add_size q.tail 1; item = write q.item q.tail x })

-- `m_pops[granule].fetch_add(1)`, and whether the pop was the last one of its granule.
unfoldable pub count_pop : Sizes → ℕ → ℕ → Queue → Queue
count_pop z p x q =
    let g = granule_of z p in
    let count = add_size (q.pops g) 1 in
    let counted = record q { pops = write q.pops g count } in
    if z.reclaim
    then (if count == z.granule_slots
        then pop_goes p (last x) counted
        else pop_goes p (done x) counted)
    else pop_goes p (turns_lap x) q

-- The bytes of the slots of a granule that `discardRingMemory` is given.
abbrev pub in_granule : Sizes → ℕ → ℕ → Bool
in_granule z g i = leb (g * z.granule_slots) i && ltb i (g * z.granule_slots + z.granule_slots)

-- `discardRingMemory` of a granule; `cleared` says which slots lie in pages that read as zero from then on.
abbrev pub discard_memory : Sizes → ℕ → (ℕ → Bool) → Queue → Queue
discard_memory z g cleared q = record q {
  states = λ i. if in_granule z g i && cleared i then 0 else q.states i;
  storage = λ i. if in_granule z g i && cleared i then none else q.storage i;
}

pub data Step (z : Sizes) (q : Queue) : Queue → Type 0 where
  takes_tail : (x : ℕ) → q.tail + 1 < word → Step z q (take_tail x q)
  finds_lap :
      (p : ℕ)
      → (q.calls p).push ≡ waits
      → q.laps (granule_of z p) ≡ lap_of z p
      → Step z q (push_goes p has_lap q)
  constructs :
      (p : ℕ)
      → (q.calls p).push ≡ has_lap
      → Step z q (push_goes p wrote (store_item z p (some (q.item p)) q))
  sets_state :
      (p : ℕ) → (q.calls p).push ≡ wrote → Step z q (push_goes p placed (store_state z p 1 q))
  reads_head : (t : ℕ) → q.looks t ≡ idle → Step z q (look_goes t (at_head q.head) q)
  finds_old_lap :
      (t : ℕ) {p : ℕ}
      → q.looks t ≡ at_head p
      → q.laps (granule_of z p) ≢ lap_of z p
      → Step z q (look_goes t idle q)
  sees_lap :
      (t : ℕ) {p : ℕ}
      → q.looks t ≡ at_head p
      → q.laps (granule_of z p) ≡ lap_of z p
      → Step z q (look_goes t (saw_lap p) q)
  finds_empty :
      (t : ℕ) {p : ℕ}
      → q.looks t ≡ saw_lap p
      → q.states (slot_of z p) ≡ 0
      → Step z q (look_goes t idle q)
  sees_item :
      (t : ℕ) {p : ℕ}
      → q.looks t ≡ saw_lap p
      → q.states (slot_of z p) ≢ 0
      → Step z q (look_goes t (saw_item p) q)
  loses : (t : ℕ) {p : ℕ} → q.looks t ≡ saw_item p → Step z q (look_goes t (at_head q.head) q)
  wins :
      (t : ℕ) {p : ℕ}
      → q.looks t ≡ saw_item p
      → q.head ≡ p
      → Step z q (look_goes t idle (pop_goes p won (record q { head = add_size p 1 })))
  moves_out :
      (p : ℕ) {x : ℕ}
      → (q.calls p).pop ≡ won
      → q.storage (slot_of z p) ≡ some x
      → Step z q (pop_goes p (moved x) (store_item z p none q))
  clears_state :
      (p : ℕ) {x : ℕ}
      → (q.calls p).pop ≡ moved x
      → Step z q (pop_goes p (emptied x) (store_state z p 0 q))
  counts : (p : ℕ) {x : ℕ} → (q.calls p).pop ≡ emptied x → Step z q (count_pop z p x q)
  resets_pops :
      (p : ℕ) {x : ℕ}
      → (q.calls p).pop ≡ last x
      → Step z q (pop_goes p (discards x) (record q { pops = write q.pops (granule_of z p) 0 }))
  discards_memory :
      (p : ℕ) {x : ℕ} (cleared : ℕ → Bool)
      → (q.calls p).pop ≡ discards x
      → Step z q (pop_goes p (turns_lap x) (discard_memory z (granule_of z p) cleared q))
  turns :
      (p : ℕ) {x : ℕ}
      → (q.calls p).pop ≡ turns_lap x
      → Step z q (
          pop_goes p
            (done x)
            (record q { laps = write q.laps (granule_of z p) (add_size (lap_of z p) 1) }))

pub data Reach (z : Sizes) : Queue → Type 0 where
  started : Reach z init
  later : {q r : Queue} → Reach z q → Step z q r → Reach z r

-- `size()`: the difference read as a signed number, and 0 below it.
unfoldable pub size : ℕ → ℕ → ℕ
size h t = let diff = sub_size t h in if ltb diff (2 ^ 63) then diff else 0

-- The items that `~RingQueue` destroys, from position h on, so many positions.
unfoldable pub destroy_from : Sizes → Queue → ℕ → ℕ → List (Option ℕ)
destroy_from z q h zero = []
destroy_from z q h (suc n) =
    let rest = destroy_from z q (suc h) n in
    if q.states (slot_of z h) == 1 then q.storage (slot_of z h) ∷ rest else rest

abbrev pub destroy : Sizes → Queue → List (Option ℕ)
destroy z q = destroy_from z q q.head (q.tail - q.head)
