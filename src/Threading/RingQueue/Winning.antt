-- ===== src/Threading/RingQueue/Winning.antt =====
-- A pop of ring_queue.hpp that wins a position keeps the invariant.
use native.Mathlib.Decide.{dec_lt}
use structured_chaos.Prelude.{ℕ, ◌+◌, ◌≡◌, refl, ap, subst, arith, write, all-write, add_size}
use structured_chaos.Threading.RingQueue.{
  Sizes, lap_of, granule_of, placed, not_won, won, idle, saw_item, Calls, Queue, pop_goes,
  look_goes,
}
use structured_chaos.Threading.RingQueue.Geometry.{Fits, index_of, index_of_lt}
use structured_chaos.Threading.RingQueue.Counting.{
  not_won_of_rank, placed_of_rank, push_rank, pop_rank, GranuleOk-goes,
}
use structured_chaos.Threading.RingQueue.Invariant.{
  PositionOk, ItemOk, LookOk, Inv, LookOk-mono, SlotsOk-write, GranulesOk-pop,
}
use structured_chaos.Threading.RingQueue.Pushing.{served_of}
use structured_chaos.Threading.RingQueue.Popping.{granule_here}

module _ (z : Sizes) (q : Queue) (inv : Inv z q) (fits : Fits z) where
  -- A position that a thread is about to take has its item, and no pop.
  pub at_saw_item :
      (t : ℕ) {p : ℕ}
      → q.looks t ≡ saw_item p
      → q.head ≡ p
      → ((q.calls p).push ≡ placed) × ((q.calls p).pop ≡ not_won)
  at_saw_item t {p} e h =
      let (le, k) = subst (LookOk z q.head q.laps q.calls) e (inv.looks t) in
      (
        placed_of_rank (q.calls p).push (k h),
        elim (dec_lt 0 (pop_rank (q.calls p).pop)) [
          | yes l ↦ absurd (omega (arith, (inv.positions p).won_below l))
          | no n ↦ not_won_of_rank (q.calls p).pop (omega arith)
        ],
      )

  pub wins-Inv :
      (t : ℕ) {p : ℕ}
      → q.looks t ≡ saw_item p
      → q.head ≡ p
      → Inv z (look_goes t idle (pop_goes p won (record q { head = add_size p 1 })))
  wins-Inv t {p} e h =
      let (full, free) = at_saw_item t e h in
      let push4 = ap push_rank full in
      let pop0 = ap pop_rank free in
      let was = inv.positions p in
      let in_use = was.begun (omega arith) in
      let up : add_size p 1 ≡ p + 1 = omega (arith, inv.small) in
      let served = served_of z q inv p (omega arith) (omega arith) in
      let (ok, same) = granule_here z q inv fits p served in
      let (st, ct) = inv.slots p served in
      let c : Calls = record { push = (q.calls p).push; pop = won } in
      record {
        order = rw (up) (omega arith);
        small = inv.small;
        positions =
            all-write
              (λ x c. PositionOk x (lap_of z x) (add_size p 1) q.tail (q.laps (granule_of z x)) c)
              q.calls p c
              (rw (up) (record {
                begun = was.begun;
                begins = was.begins;
                won_below = λ _. omega arith;
                below_won = λ _. omega arith;
                placed_first = λ _. push4;
                served_first = was.served_first;
                over_before = λ l. absurd (omega (arith, was.over_before l));
              }))
              (λ x n.
                let o = inv.positions x in
                rw (up) (record {
                  begun = o.begun;
                  begins = o.begins;
                  won_below = λ l. omega (arith, o.won_below l);
                  below_won = λ l. o.below_won (omega arith);
                  placed_first = o.placed_first;
                  served_first = o.served_first;
                  over_before = o.over_before;
                }));
        slots =
            SlotsOk-write z q p fits c inv.slots served (λ _ _. (refl, refl))
              (rw (full) (rw (full, free) at st)) (rw (full) (rw (full, free) at ct));
        items = all-write (λ x c. ItemOk c.pop (q.item x)) q.calls p c tt (λ x _. inv.items x);
        granules =
            GranulesOk-pop z q p fits c served inv.granules (λ _ _. refl)
              (GranuleOk-goes (index_of z p) won (index_of_lt fits p)
                (omega (arith, ap pop_rank same)) (omega arith) ok);
        looks =
            all-write (λ u l. LookOk z (add_size p 1) q.laps (write q.calls p c) l) q.looks t idle
              tt
              (λ u _.
                LookOk-mono z q.head (add_size p 1) q.laps q.laps q.calls (write q.calls p c)
                  (q.looks u) (rw (up) (omega arith)) (λ g. omega arith)
                  (all-write (λ x c. push_rank (q.calls x).push ≡ 4 → push_rank c.push ≡ 4) q.calls
                    p c (λ k. k) (λ x _ k. k))
                  (inv.looks u));
      }
