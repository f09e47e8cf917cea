-- ===== src/Threading/RingQueue/Pushing.antt =====
-- Pushes of ring_queue.hpp keep the invariant.
use native.Mathlib.Decide.{dec_lt}
use structured_chaos.Prelude.{
  ℕ, ◌+◌, ◌%◌, ◌≤◌, ◌<◌, ◌≡◌, ◌≢◌, refl, ap, Option, some, arith, write, all-write, word,
}
use structured_chaos.Threading.RingQueue.{
  Sizes, slot_of, lap_of, granule_of, Push, to_come, waits, has_lap, wrote, placed, not_won, Calls,
  Queue, take_tail, push_goes, store_item, store_state,
}
use structured_chaos.Threading.RingQueue.Geometry.{Fits}
use structured_chaos.Threading.RingQueue.Counting.{not_won_of_rank, push_rank, pop_rank}
use structured_chaos.Threading.RingQueue.Invariant.{
  PositionOk, held_state, held_item, ItemOk, SlotsOk, GranulesOk, Inv, LookOk-mono, SlotsOk-write,
  GranulesOk-push,
}

module _ (z : Sizes) (q : Queue) (inv : Inv z q) where
  -- The lap of a call that uses its slot is the one that its granule serves.
  pub served_of :
      (p : ℕ)
      → 2 ≤ push_rank (q.calls p).push
      → pop_rank (q.calls p).pop ≤ 5
      → q.laps (granule_of z p) ≡ lap_of z p
  served_of p a b =
      let ok = inv.positions p in
      elim (dec_lt (lap_of z p) (q.laps (granule_of z p))) [
        | yes l ↦ absurd (omega (arith, ok.over_before l))
        | no n ↦ omega (arith, ok.served_first a)
      ]

  -- A step of a call that leaves head, tail and the laps alone.
  pub call_step :
      (p : ℕ) (c : Calls) {states' pops' : ℕ → ℕ} {storage' : ℕ → Option ℕ}
      → (push_rank (q.calls p).push ≡ 4 → push_rank c.push ≡ 4)
      → PositionOk p (lap_of z p) q.head q.tail (q.laps (granule_of z p)) c
      → ItemOk c.pop (q.item p)
      → SlotsOk z q.laps states' storage' q.item (write q.calls p c)
      → GranulesOk z q.laps pops' (write q.calls p c)
      → Inv z (record q {
        pops = pops';
        states = states';
        storage = storage';
        calls = write q.calls p c;
      })
  call_step p c keeps ok item slots granules = record {
    order = inv.order;
    small = inv.small;
    positions =
        all-write (λ x c. PositionOk x (lap_of z x) q.head q.tail (q.laps (granule_of z x)) c)
          q.calls p c ok (λ x _. inv.positions x);
    slots = slots;
    items = all-write (λ x c. ItemOk c.pop (q.item x)) q.calls p c item (λ x _. inv.items x);
    granules = granules;
    looks = λ t.
        LookOk-mono z q.head q.head q.laps q.laps q.calls (write q.calls p c) (q.looks t)
          (omega arith) (λ g. omega arith)
          (all-write (λ x c. push_rank (q.calls x).push ≡ 4 → push_rank c.push ≡ 4) q.calls p c
            keeps (λ x _ h. h))
          (inv.looks t);
  }

  -- A step of a push that has not placed its item yet.
  pub push_step :
      (p : ℕ) (a : Push) {states' : ℕ → ℕ} {storage' : ℕ → Option ℕ}
      → Fits z
      → 1 ≤ push_rank (q.calls p).push
      → push_rank (q.calls p).push ≤ 3
      → 2 ≤ push_rank a
      → q.laps (granule_of z p) ≡ lap_of z p
      → ((j : ℕ) → slot_of z p ≢ j → (states' j ≡ q.states j) × (storage' j ≡ q.storage j))
      → states' (slot_of z p) ≡ held_state a (q.calls p).pop
      → storage' (slot_of z p) ≡ held_item a (q.calls p).pop (q.item p)
      → Inv z (push_goes p a (record q { states = states'; storage = storage' }))
  push_step p a {states'} {storage'} fits lo hi new served others st ct =
      let was = inv.positions p in
      call_step p (record { push = a; pop = (q.calls p).pop }) (λ e. absurd (omega arith))
        (record {
          begun = λ _. was.begun lo;
          begins = λ _. omega arith;
          won_below = was.won_below;
          below_won = was.below_won;
          placed_first = λ h. absurd (omega (arith, was.placed_first h));
          served_first = λ _. omega arith;
          over_before = was.over_before;
        })
        (inv.items p)
        (SlotsOk-write z q p fits (record { push = a; pop = (q.calls p).pop }) inv.slots served
          others st ct)
        (GranulesOk-push z q p a inv.granules)

  -- A position that a push waits for, or uses, has no pop yet.
  pub no_pop : (p : ℕ) → push_rank (q.calls p).push ≤ 3 → (q.calls p).pop ≡ not_won
  no_pop p h = elim (dec_lt 0 (pop_rank (q.calls p).pop)) [
    | yes l ↦ absurd (omega (arith, (inv.positions p).placed_first l))
    | no n ↦ not_won_of_rank (q.calls p).pop (omega arith)
  ]

  pub finds_lap-Inv :
      (p : ℕ)
      → Fits z
      → (q.calls p).push ≡ waits
      → q.laps (granule_of z p) ≡ lap_of z p
      → Inv z (push_goes p has_lap q)
  finds_lap-Inv p fits e served =
      let (st, ct) = inv.slots p served in
      push_step p has_lap fits (rw e (omega arith)) (rw e (omega arith)) (omega arith) served
        (λ j n. (refl, refl)) (rw (e) at st) (rw (e) at ct)

  pub constructs-Inv :
      (p : ℕ)
      → Fits z
      → (q.calls p).push ≡ has_lap
      → Inv z (push_goes p wrote (store_item z p (some (q.item p)) q))
  constructs-Inv p fits e =
      let free = no_pop p (rw e (omega arith)) in
      let served = served_of p (rw e (omega arith)) (rw free (omega arith)) in
      let (st, ct) = inv.slots p served in
      push_step p wrote fits (rw e (omega arith)) (rw e (omega arith)) (omega arith) served
        (λ j n. (refl, ground arith)) (rw (e) at st) (ground arith)

  pub sets_state-Inv :
      (p : ℕ) → Fits z → (q.calls p).push ≡ wrote → Inv z (push_goes p placed (store_state z p 1 q))
  sets_state-Inv p fits e =
      let free = no_pop p (rw e (omega arith)) in
      let served = served_of p (rw e (omega arith)) (rw free (omega arith)) in
      let (st, ct) = inv.slots p served in
      push_step p placed fits (rw e (omega arith)) (rw e (omega arith)) (omega arith) served
        (λ j n. (ground arith, refl)) (rw free (ground arith)) (rw free (rw (e) at ct))

  -- The position at the tail has no call yet.
  fresh_tail : ((q.calls q.tail).push ≡ to_come) × ((q.calls q.tail).pop ≡ not_won)
  fresh_tail =
      let ok = inv.positions q.tail in
      let none_yet : (q.calls q.tail).push ≡ to_come =
        elim (dec_lt 0 (push_rank (q.calls q.tail).push)) [
          | yes l ↦ absurd (omega (arith, ok.begun l))
          | no n ↦ fresh (q.calls q.tail).push (omega arith)
        ] in
      (none_yet, no_pop q.tail (rw none_yet (omega arith)))
    where
      fresh : (a : Push) → push_rank a ≡ 0 → a ≡ to_come
      fresh a e = ground arith

  pub takes_tail-Inv : (x : ℕ) → q.tail + 1 < word → Inv z (take_tail x q)
  takes_tail-Inv x room =
      let (none_yet, free) = fresh_tail in
      let up : (q.tail + 1) % word ≡ q.tail + 1 = omega arith in
      record {
        order = rw up (omega (arith, inv.order));
        small = rw up room;
        positions =
            all-write
              (λ x c.
                PositionOk x (lap_of z x) q.head ((q.tail + 1) % word) (q.laps (granule_of z x)) c)
              q.calls q.tail (record { push = waits; pop = (q.calls q.tail).pop })
              (rw (up, free)
                (record {
                  begun = λ _. omega arith;
                  begins = λ _. omega arith;
                  won_below = λ h. absurd (omega arith);
                  below_won = λ h. absurd (omega (arith, inv.order));
                  placed_first = λ h. absurd (omega arith);
                  served_first = λ h. absurd (omega arith);
                  over_before = λ h.
                      absurd
                        (omega (arith, ap pop_rank free, (inv.positions q.tail).over_before h));
                }))
              (λ x n.
                let ok = inv.positions x in
                rw up (record {
                  begun = λ h. omega (arith, ok.begun h);
                  begins = λ h. ok.begins (omega arith);
                  won_below = ok.won_below;
                  below_won = ok.below_won;
                  placed_first = ok.placed_first;
                  served_first = ok.served_first;
                  over_before = ok.over_before;
                }));
        slots =
            all-write
              (λ p c.
                q.laps (granule_of z p) ≡ lap_of z p
                → (q.states (slot_of z p) ≡ held_state c.push c.pop)
                  × (q.storage (slot_of z p) ≡ held_item c.push c.pop (write q.item q.tail x p)))
              q.calls q.tail (record { push = waits; pop = (q.calls q.tail).pop })
              (λ e. let (st, ct) = inv.slots q.tail e in (rw (none_yet) at st, rw (none_yet) at ct))
              (λ p n e.
                let kept : write q.item q.tail x p ≡ q.item p = ground arith in
                rw kept (inv.slots p e));
        items =
            all-write (λ p c. ItemOk c.pop (write q.item q.tail x p)) q.calls q.tail
              (record { push = waits; pop = (q.calls q.tail).pop }) (rw free tt)
              (λ p n.
                let kept : write q.item q.tail x p ≡ q.item p = ground arith in
                rw kept (inv.items p));
        granules = GranulesOk-push z q q.tail waits inv.granules;
        looks = λ t.
            LookOk-mono z q.head q.head q.laps q.laps q.calls
              (write q.calls q.tail (record { push = waits; pop = (q.calls q.tail).pop }))
              (q.looks t) (omega arith) (λ g. omega arith)
              (all-write (λ x c. push_rank (q.calls x).push ≡ 4 → push_rank c.push ≡ 4) q.calls
                q.tail (record { push = waits; pop = (q.calls q.tail).pop })
                (λ h. absurd (omega (arith, ap push_rank none_yet))) (λ x _ h. h))
              (inv.looks t);
      }
