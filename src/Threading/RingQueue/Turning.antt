-- ===== src/Threading/RingQueue/Turning.antt =====
-- A pop of ring_queue.hpp that moves a granule on to its next lap keeps the invariant.
use native.Mathlib.Decide.{dec_lt, ℕ_discrete}
use structured_chaos.Prelude.{
  ℕ, ◌+◌, ◌*◌, ◌≤◌, ◌<◌, ◌≡◌, ◌≢◌, refl, sym, ap, ◌∙◌, subst, none, arith, write, all-write,
  add_size,
}
use structured_chaos.Threading.RingQueue.{
  Sizes, slot_of, lap_of, granule_of, Push, to_come, waits, has_lap, wrote, placed, Pop, turns_lap,
  done, Calls, Queue, pop_goes,
}
use structured_chaos.Threading.RingQueue.Geometry.{
  Fits, index_of, index_of_lt, position, position_of_parts, slot_of_parts, granule_of_lt, lap_of_le,
  lap_of-position, slot_of-position, granule_of-position,
}
use structured_chaos.Threading.RingQueue.Counting.{
  placed_of_rank, push_rank, pop_rank, GranuleOk, GranuleOk-congr, GranuleOk-alone, GranuleOk-fresh,
}
use structured_chaos.Threading.RingQueue.Invariant.{
  PositionOk, held_state, held_item, ItemOk, pops_of, Inv, LookOk-mono, pops_of-there,
}
use structured_chaos.Threading.RingQueue.Popping.{granule_here, found, held_nothing}

module _ (z : Sizes) (q : Queue) (inv : Inv z q) (fits : Fits z) where
  module _ (p : ℕ) {x : ℕ} (e : (q.calls p).pop ≡ turns_lap x) where
    turning :
        (q.laps (granule_of z p) ≡ lap_of z p)
        × (q.pops (granule_of z p) ≡ 0)
        × (add_size (lap_of z p) 1 ≡ lap_of z p + 1)
    turning =
        let rank = ap pop_rank e in
        let (served, st, ct) = found z q inv fits p (omega arith) (omega arith) in
        let (ok, same) = granule_here z q inv fits p served in
        let five = ap pop_rank same ∙ rank in
        (
          served,
          (GranuleOk-alone (index_of z p) (index_of_lt fits p) ok (omega arith) (omega arith)).0
              five,
          omega (
            arith,
            lap_of_le fits p,
            (inv.positions p).won_below (omega arith),
            inv.order,
            inv.small,
          ),
        )

    -- All others of the granule in this lap are over.
    pub rest_over :
        (y : ℕ)
        → granule_of z p ≡ granule_of z y
        → lap_of z p ≡ lap_of z y
        → p ≢ y
        → pop_rank (q.calls y).pop ≡ 6
    rest_over y g l n =
        let (served, _, _) = turning in
        let rank = ap pop_rank e in
        let (ok, same) = granule_here z q inv fits p served in
        let (_, there) = granule_here z q inv fits y (ap q.laps (sym g) ∙ served ∙ l) in
        let five = ap pop_rank same ∙ rank in
        let apart : index_of z p ≢ index_of z y = λ i. n (
          sym (position_of_parts fits p)
          ∙ ap (λ k. position z (lap_of z p) (granule_of z p) k) i
          ∙ ap (λ k. position z (lap_of z p) k (index_of z y)) g
          ∙ ap (λ k. position z k (granule_of z y) (index_of z y)) l
          ∙ position_of_parts fits y) in
        let six =
          (GranuleOk-alone (index_of z p) (index_of_lt fits p) ok (omega arith) (omega arith)).1
            (index_of z y) (index_of_lt fits y) apart in
        ap pop_rank (sym there ∙ ap (λ k. pops_of z q.laps q.calls k (index_of z y)) (sym g)) ∙ six

    -- No call uses a slot of the granule in the next lap yet.
    next_unused :
        (y : ℕ)
        → granule_of z p ≡ granule_of z y
        → lap_of z p < lap_of z y
        → (push_rank (q.calls y).push ≤ 1) × (pop_rank (q.calls y).pop ≡ 0)
    next_unused y g l =
        let (served, _, _) = turning in
        let at_y : q.laps (granule_of z y) ≡ lap_of z p = ap q.laps (sym g) ∙ served in
        let ok = inv.positions y in
        let early : push_rank (q.calls y).push ≤ 1 = elim (dec_lt 1 (push_rank (q.calls y).push)) [
          | yes m ↦ absurd (omega (arith, ok.served_first m))
          | no n ↦ omega arith
        ] in
        (
          early,
          elim (dec_lt 0 (pop_rank (q.calls y).pop)) [
            | yes m ↦ absurd (omega (arith, ok.placed_first m))
            | no n ↦ omega arith
          ],
        )

    -- The slots of the granule are empty.
    pub granule_empty :
        (i : ℕ)
        → i < z.granule_slots
        → (q.states (granule_of z p * z.granule_slots + i) ≡ 0)
          × (q.storage (granule_of z p * z.granule_slots + i) ≡ none)
    granule_empty i l =
        let (served, _, _) = turning in
        let rank = ap pop_rank e in
        let in_ring = granule_of_lt fits p in
        let y = position z (lap_of z p) (granule_of z p) i in
        let gy : granule_of z y ≡ granule_of z p =
          granule_of-position fits (lap_of z p) in_ring l in
        let ly : lap_of z y ≡ lap_of z p = lap_of-position fits (lap_of z p) in_ring l in
        let at_y : q.laps (granule_of z y) ≡ lap_of z y = ap q.laps gy ∙ served ∙ sym ly in
        let high : (5 ≤ pop_rank (q.calls y).pop) = elim (ℕ_discrete p y) [
          | yes s ↦ omega (arith, ap (λ k. pop_rank (q.calls k).pop) s)
          | no n ↦ omega (arith, rest_over y (sym gy) (sym ly) n)
        ] in
        let full = placed_of_rank (q.calls y).push ((inv.positions y).placed_first (omega arith)) in
        let (st, ct) = inv.slots y at_y in
        let (nothing_0, nothing_1) = held_nothing (q.calls y).pop (q.item y) (omega arith) in
        let here = slot_of-position fits (lap_of z p) in_ring l in
        (
          ap q.states (sym here) ∙ rw (full) at st ∙ nothing_0,
          ap q.storage (sym here) ∙ rw (full) at ct ∙ nothing_1,
        )

    turned : ℕ → ℕ
    turned = write q.laps (granule_of z p) (add_size (lap_of z p) 1)

    -- Elsewhere the laps are the same; in the granule it is the next one.
    turned_there : (g : ℕ) → granule_of z p ≢ g → turned g ≡ q.laps g
    unfolding turned
    turned_there g n = ground arith

    turned_here : (g : ℕ) → granule_of z p ≡ g → turned g ≡ lap_of z p + 1
    unfolding turned
    turned_here g s =
        let (_, _, up) = turning in
        let here : turned g ≡ add_size (lap_of z p) 1 = ground arith in here ∙ up

    turned_position :
        (y : ℕ)
        → p ≢ y
        → PositionOk y (lap_of z y) q.head q.tail (turned (granule_of z y)) (q.calls y)
    turned_position y n = elim (ℕ_discrete (granule_of z p) (granule_of z y)) [
      | no o ↦ rw (turned_there (granule_of z y) o) (inv.positions y)
      | yes g ↦
          let (served, _, _) = turning in
          let ok = inv.positions y in
          let at_y : q.laps (granule_of z y) ≡ lap_of z p = ap q.laps (sym g) ∙ served in
          rw (turned_here (granule_of z y) g) (record {
            begun = ok.begun;
            begins = ok.begins;
            won_below = ok.won_below;
            below_won = ok.below_won;
            placed_first = ok.placed_first;
            served_first = λ l. omega (arith, ok.served_first l);
            over_before = λ l. elim (dec_lt (lap_of z y) (lap_of z p)) [
              | yes m ↦ ok.over_before (omega arith)
              | no m ↦ rest_over y g (omega arith) n
            ];
          })
    ]

    turned_slot :
        (y : ℕ)
        → p ≢ y
        → turned (granule_of z y) ≡ lap_of z y
        → (q.states (slot_of z y) ≡ held_state (q.calls y).push (q.calls y).pop)
          × (q.storage (slot_of z y) ≡ held_item (q.calls y).push (q.calls y).pop (q.item y))
    turned_slot y n l = elim (ℕ_discrete (granule_of z p) (granule_of z y)) [
      | no o ↦ inv.slots y (sym (turned_there (granule_of z y) o) ∙ l)
      | yes g ↦
          let (early, none_won) = next_unused y g (omega (arith, turned_here (granule_of z y) g)) in
          let (st, ct) = granule_empty (index_of z y) (index_of_lt fits y) in
          let there : granule_of z p * z.granule_slots + index_of z y ≡ slot_of z y =
            ap (λ k. k * z.granule_slots + index_of z y) g ∙ slot_of_parts fits y in
          let (no_state, no_item) = unused (q.calls y).push (q.calls y).pop early in
          (sym (ap q.states there) ∙ st ∙ sym no_state, sym (ap q.storage there) ∙ ct ∙ sym no_item)
    ]
      where
        unused :
            (a : Push) (b : Pop)
            → push_rank a ≤ 1
            → (held_state a b ≡ 0) × (held_item a b (q.item y) ≡ none)
        unused to_come b h = (refl, refl)
        unused waits b h = (refl, refl)
        unused has_lap b h = absurd (omega arith)
        unused wrote b h = absurd (omega arith)
        unused placed b h = absurd (omega arith)

    turned_granule :
        (c : Calls) (g : ℕ)
        → g < z.num_granules
        → GranuleOk z.granule_slots (pops_of z turned (write q.calls p c) g) (q.pops g)
    turned_granule c g l = elim (ℕ_discrete (granule_of z p) g) [
      | no o ↦
          rw (pops_of, turned_there g o)
            (GranuleOk-congr (λ i m. pops_of-there z q p fits c g i l m o) (inv.granules g l))
      | yes s ↦
          let (_, no_pops, _) = turning in
          rw (ap q.pops (sym s) ∙ no_pops) (
            GranuleOk-fresh fits.slots_pos (λ i m.
              let y = position z (turned g) g i in
              let gy : granule_of z y ≡ g = granule_of-position fits (turned g) l m in
              let ly : lap_of z y ≡ turned g = lap_of-position fits (turned g) l m in
              let (_, none_won) = next_unused y (s ∙ sym gy) (omega (arith, turned_here g s)) in
              let apart : p ≢ y = λ e'. omega (arith, ap (lap_of z) e', turned_here g s) in
              let same : (write q.calls p c y).pop ≡ (q.calls y).pop = ground arith in
              ap pop_rank same ∙ none_won))
    ]

    pub turns-Inv : Inv z (
        pop_goes p
          (done x)
          (record q { laps = write q.laps (granule_of z p) (add_size (lap_of z p) 1) }))
    unfolding turned
    turns-Inv =
        let rank = ap pop_rank e in
        let was = inv.positions p in
        let c : Calls = record { push = (q.calls p).push; pop = done x } in
        let up = turned_here (granule_of z p) refl in
        record {
          order = inv.order;
          small = inv.small;
          positions =
              all-write (λ y c. PositionOk y (lap_of z y) q.head q.tail (turned (granule_of z y)) c)
                q.calls p c
                (rw (up) (record {
                  begun = was.begun;
                  begins = was.begins;
                  won_below = λ _. was.won_below (omega arith);
                  below_won = λ _. omega arith;
                  placed_first = λ _. was.placed_first (omega arith);
                  served_first = λ _. omega arith;
                  over_before = λ _. refl;
                }))
                turned_position;
          slots =
              all-write
                (λ y c.
                  turned (granule_of z y) ≡ lap_of z y
                  → (q.states (slot_of z y) ≡ held_state c.push c.pop)
                    × (q.storage (slot_of z y) ≡ held_item c.push c.pop (q.item y)))
                q.calls p c (λ l. absurd (omega (arith, up))) turned_slot;
          items =
              all-write (λ y c. ItemOk c.pop (q.item y)) q.calls p c
                (subst (λ b. ItemOk b (q.item p)) e (inv.items p)) (λ y _. inv.items y);
          granules = turned_granule c;
          looks = λ t.
              LookOk-mono z q.head q.head q.laps turned q.calls (write q.calls p c) (q.looks t)
                (omega arith) (λ g. laps_grow g)
                (all-write (λ y c. push_rank (q.calls y).push ≡ 4 → push_rank c.push ≡ 4) q.calls p
                  c (λ k. k) (λ y _ k. k))
                (inv.looks t);
        }
      where
        laps_grow : (g : ℕ) → q.laps g ≤ turned g
        laps_grow g = elim (ℕ_discrete (granule_of z p) g) [
          | no o ↦ omega (arith, turned_there g o)
          | yes s ↦ let (served, _, _) = turning in omega (arith, turned_here g s, ap q.laps s)
        ]
