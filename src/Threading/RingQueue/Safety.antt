-- ===== src/Threading/RingQueue/Safety.antt =====
-- What holds of the queue of ring_queue.hpp in every state that its calls reach.
use native.Mathlib.Decide.{dec_lt}
use structured_chaos.Prelude.{
  ℕ, ◌+◌, ◌*◌, ◌≤◌, ◌<◌, ◌≡◌, ◌≢◌, refl, sym, ap, ◌∙◌, subst, none, some, arith,
}
use structured_chaos.Threading.RingQueue.{
  Sizes, slot_of, lap_of, granule_of, waits, has_lap, won, discards, done, Queue, init, Step,
  takes_tail, finds_lap, constructs, sets_state, reads_head, finds_old_lap, sees_lap, finds_empty,
  sees_item, loses, wins, moves_out, clears_state, counts, resets_pops, discards_memory, turns,
  Reach, started, later, idle, at_head,
}
use structured_chaos.Threading.RingQueue.Geometry.{
  Fits, position_lt, granule_of_slot, slot_of-lap_of-injective, granule_of_lt, position,
  granule_of-position,
}
use structured_chaos.Threading.RingQueue.Counting.{
  push_rank, pop_rank, GranuleOk-fresh, GranuleOk-moves_on,
}
use structured_chaos.Threading.RingQueue.Invariant.{Inv, ItemOk}
use structured_chaos.Threading.RingQueue.Pushing.{
  served_of, no_pop, finds_lap-Inv, constructs-Inv, sets_state-Inv, takes_tail-Inv,
}
use structured_chaos.Threading.RingQueue.Popping.{
  look-Inv, sees_lap-Inv, sees_item-Inv, moves_out-Inv, clears_state-Inv, counts-Inv,
  resets_pops-Inv, found,
}
use structured_chaos.Threading.RingQueue.Winning.{wins-Inv}
use structured_chaos.Threading.RingQueue.Discarding.{discarded_empty, discards_memory-Inv}
use structured_chaos.Threading.RingQueue.Turning.{turns-Inv}

init-Inv : (z : Sizes) → Fits z → Inv z init
init-Inv z fits = record {
  order = omega arith;
  small = omega arith;
  positions = λ p. record {
    begun = λ h. absurd (omega arith);
    begins = λ h. absurd (omega arith);
    won_below = λ h. absurd (omega arith);
    below_won = λ h. absurd (omega arith);
    placed_first = λ h. absurd (omega arith);
    served_first = λ h. absurd (omega arith);
    over_before = λ h. absurd (omega arith);
  };
  slots = λ p _. (refl, refl);
  items = λ p. tt;
  granules = λ g l. GranuleOk-fresh fits.slots_pos (λ i m. refl);
  looks = λ t. tt;
}

pub Step-Inv : {z : Sizes} {q r : Queue} → Fits z → Inv z q → Step z q r → Inv z r
Step-Inv {z} {q} fits inv (takes_tail x l) = takes_tail-Inv z q inv x l
Step-Inv {z} {q} fits inv (finds_lap p e l) = finds_lap-Inv z q inv p fits e l
Step-Inv {z} {q} fits inv (constructs p e) = constructs-Inv z q inv p fits e
Step-Inv {z} {q} fits inv (sets_state p e) = sets_state-Inv z q inv p fits e
Step-Inv {z} {q} fits inv (reads_head t e) = look-Inv z q inv t (at_head q.head) (omega arith)
Step-Inv {z} {q} fits inv (finds_old_lap t e l) = look-Inv z q inv t idle tt
Step-Inv {z} {q} fits inv (sees_lap t e l) = sees_lap-Inv z q inv t e l
Step-Inv {z} {q} fits inv (finds_empty t e l) = look-Inv z q inv t idle tt
Step-Inv {z} {q} fits inv (sees_item t e l) = sees_item-Inv z q inv t e l
Step-Inv {z} {q} fits inv (loses t e) = look-Inv z q inv t (at_head q.head) (omega arith)
Step-Inv {z} {q} fits inv (wins t e h) = wins-Inv z q inv fits t e h
Step-Inv {z} {q} fits inv (moves_out p e s) = moves_out-Inv z q inv fits p e s
Step-Inv {z} {q} fits inv (clears_state p e) = clears_state-Inv z q inv fits p e
Step-Inv {z} {q} fits inv (counts p e) = counts-Inv z q inv fits p e
Step-Inv {z} {q} fits inv (resets_pops p e) = resets_pops-Inv z q inv fits p e
Step-Inv {z} {q} fits inv (discards_memory p cleared e) =
    discards_memory-Inv z q inv fits p e cleared
Step-Inv {z} {q} fits inv (turns p e) = turns-Inv z q inv fits p e

pub Reach-Inv : {z : Sizes} {q : Queue} → Fits z → Reach z q → Inv z q
Reach-Inv {z} fits started = init-Inv z fits
Reach-Inv fits (later r s) = Step-Inv fits (Reach-Inv fits r) s

-- popped
pub popped-Fifo :
    {z : Sizes} {q : Queue}
    → Fits z
    → Reach z q
    → (p : ℕ) {x : ℕ} → (q.calls p).pop ≡ done x
    → (x ≡ q.item p) × (p < q.head) × (q.head ≤ q.tail)
popped-Fifo {z} {q} fits r p e =
    let inv = Reach-Inv fits r in
    (
      subst (λ b. ItemOk b (q.item p)) e (inv.items p),
      (inv.positions p).won_below (omega (arith, ap pop_rank e)),
      inv.order,
    )

-- Two calls at different positions that use their slots, a push that saw its lap or a pop that
-- has not counted itself, use different slots, whatever order the steps of pushes and pops come
-- in: a slot is never shared between two laps. Fewer than 2^64 items are pushed and the granules
-- split the ring evenly.
pub slots-apart :
    {z : Sizes} {q : Queue}
    → Fits z
    → Reach z q
    → (p o : ℕ) → p ≢ o
    → 2 ≤ push_rank (q.calls p).push
    → pop_rank (q.calls p).pop ≤ 3
    → 2 ≤ push_rank (q.calls o).push
    → pop_rank (q.calls o).pop ≤ 3
    → slot_of z p ≢ slot_of z o
slots-apart {z} {q} fits r p o n a b c d s =
    let inv = Reach-Inv fits r in
    n (
      slot_of-lap_of-injective fits p o s (
        sym (served_of z q inv p a (omega arith))
        ∙ ap q.laps (granule_of_slot z p o s)
        ∙ served_of z q inv o c (omega arith)))

-- A push that saw its lap constructs its item in a slot that holds none and whose state is 0, and
-- a pop that won its position finds there the item that was pushed at it, whatever order the
-- steps of pushes and pops come in, if fewer than 2^64 items are pushed and the granules split
-- the ring evenly.
pub storage-Right :
    {z : Sizes} {q : Queue}
    → Fits z
    → Reach z q
    → (p : ℕ)
    → ((q.calls p).push ≡ has_lap → (q.storage (slot_of z p) ≡ none) × (q.states (slot_of z p) ≡ 0))
      × ((q.calls p).pop ≡ won → q.storage (slot_of z p) ≡ some (q.item p))
storage-Right {z} {q} fits r p =
    let inv = Reach-Inv fits r in
    (
      λ e.
          let rank = ap push_rank e in
          let free = no_pop z q inv p (omega arith) in
          let (st, ct) =
            inv.slots p (served_of z q inv p (omega arith) (omega (arith, ap pop_rank free))) in
          (rw (e) at ct, rw (e) at st),
      λ e.
          let rank = ap pop_rank e in
          let (_, _, ct) = found z q inv fits p (omega arith) (omega arith) in rw (e) at ct,
    )

-- Whenever a call is about to give the memory of its granule back to the system, having reset the
-- counter of pops, each slot of the granule holds no item and has the state 0, whatever order the
-- steps of pushes and pops come in and whatever slots read as zero after it; fewer than 2^64
-- items are pushed and the granules split the ring evenly.
pub discarded-Empty :
    {z : Sizes} {q : Queue}
    → Fits z
    → Reach z q
    → (p : ℕ) {x : ℕ} → (q.calls p).pop ≡ discards x
    → (i : ℕ) → i < z.granule_slots
    → (q.states (granule_of z p * z.granule_slots + i) ≡ 0)
      × (q.storage (granule_of z p * z.granule_slots + i) ≡ none)
discarded-Empty {z} {q} fits r p e i l = discarded_empty z q (Reach-Inv fits r) fits p e i l

-- A push that waits for its lap sees it once all pops at earlier positions of its granule
-- returned, whatever order the steps of pushes and pops come in, if fewer than 2^64 items are
-- pushed and the granules split the ring evenly.
pub waits-Served :
    {z : Sizes} {q : Queue}
    → Fits z
    → Reach z q
    → (p : ℕ) → (q.calls p).push ≡ waits
    → ((o : ℕ) → o < p → granule_of z o ≡ granule_of z p → (x : ℕ) × ((q.calls o).pop ≡ done x))
    → q.laps (granule_of z p) ≡ lap_of z p
waits-Served {z} {q} fits r p e all =
    let inv = Reach-Inv fits r in
    let g = granule_of z p in
    let in_ring = granule_of_lt fits p in
    let free = no_pop z q inv p (omega (arith, ap push_rank e)) in
    elim (dec_lt (lap_of z p) (q.laps g)) [
      | yes m ↦ absurd (omega (arith, (inv.positions p).over_before m, ap pop_rank free))
      | no m ↦ elim (dec_lt (q.laps g) (lap_of z p)) [
        | no k ↦ omega arith
        | yes k ↦ absurd (
            GranuleOk-moves_on (inv.granules g in_ring) (λ i l.
              let y = position z (q.laps g) g i in
              let (x, over) =
                all y (position_lt fits (q.laps g) i p k l)
                  (granule_of-position fits (q.laps g) in_ring l) in
              ap pop_rank over))
      ]
    ]
