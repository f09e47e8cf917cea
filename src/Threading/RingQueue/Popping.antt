-- ===== src/Threading/RingQueue/Popping.antt =====
-- Pops of ring_queue.hpp keep the invariant.
use native.Mathlib.Decide.{dec_lt}
use structured_chaos.Prelude.{
  ℕ, ◌+◌, ◌≤◌, ◌≡◌, ◌≢◌, refl, sym, ap, ◌∙◌, subst, Option, none, some, eq_of_some, arith, if_rule,
  ◌==◌, write, all-write, add_size,
}
use structured_chaos.Threading.RingQueue.{
  Sizes, slot_of, lap_of, granule_of, Push, to_come, waits, has_lap, wrote, placed, Pop, not_won,
  won, moved, emptied, last, discards, turns_lap, done, Look, at_head, saw_lap, saw_item, Calls,
  Queue, pop_goes, look_goes, store_item, store_state, count_pop,
}
use structured_chaos.Threading.RingQueue.Geometry.{
  Fits, index_of, index_of_lt, position_of_parts, granule_of_lt,
}
use structured_chaos.Threading.RingQueue.Counting.{
  placed_of_rank, push_rank, pop_rank, GranuleOk, GranuleOk-goes, GranuleOk-count_lt,
  GranuleOk-last, GranuleOk-done, GranuleOk-closes, GranuleOk-alone,
}
use structured_chaos.Threading.RingQueue.Invariant.{
  held_state, held_item, ItemOk, pops_of, LookOk, Inv, SlotsOk-write, GranulesOk-pop,
}
use structured_chaos.Threading.RingQueue.Pushing.{served_of, call_step}

-- A pop that emptied its slot leaves nothing there.
pub held_nothing :
    (b : Pop) (x : ℕ) → 3 ≤ pop_rank b → (held_state placed b ≡ 0) × (held_item placed b x ≡ none)
held_nothing not_won x h = absurd (omega arith)
held_nothing won x h = absurd (omega arith)
held_nothing (moved y) x h = absurd (omega arith)
held_nothing (emptied y) x h = (refl, refl)
held_nothing (last y) x h = (refl, refl)
held_nothing (discards y) x h = (refl, refl)
held_nothing (turns_lap y) x h = (refl, refl)
held_nothing (done y) x h = (refl, refl)

module _ (z : Sizes) (q : Queue) (inv : Inv z q) where
  -- A step of a pop that has not won.
  pub look-Inv : (t : ℕ) (l : Look) → LookOk z q.head q.laps q.calls l → Inv z (look_goes t l q)
  look-Inv t l ok = record {
    order = inv.order;
    small = inv.small;
    positions = inv.positions;
    slots = inv.slots;
    items = inv.items;
    granules = inv.granules;
    looks = all-write (λ t l. LookOk z q.head q.laps q.calls l) q.looks t l ok (λ t _. inv.looks t);
  }

  pub sees_lap-Inv :
      (t : ℕ) {p : ℕ}
      → q.looks t ≡ at_head p
      → q.laps (granule_of z p) ≡ lap_of z p
      → Inv z (look_goes t (saw_lap p) q)
  sees_lap-Inv t e served =
      look-Inv t (saw_lap _)
        (subst (LookOk z q.head q.laps q.calls) e (inv.looks t), λ _. omega arith)

  -- What a pop finds at the head in its lap is an item that was placed.
  pub sees_item-Inv :
      (t : ℕ) {p : ℕ}
      → q.looks t ≡ saw_lap p
      → q.states (slot_of z p) ≢ 0
      → Inv z (look_goes t (saw_item p) q)
  sees_item-Inv t {p} e n =
      let (le, k) = subst (LookOk z q.head q.laps q.calls) e (inv.looks t) in
      look-Inv t (saw_item p) (le, λ h. at_the_head h (k h))
    where
      filled : (a : Push) (b : Pop) → held_state a b ≢ 0 → push_rank a ≡ 4
      filled placed b h = refl
      filled to_come b h = absurd (h refl)
      filled waits b h = absurd (h refl)
      filled has_lap b h = absurd (h refl)
      filled wrote b h = absurd (h refl)

      at_the_head :
          q.head ≡ p → lap_of z p ≤ q.laps (granule_of z p) → push_rank (q.calls p).push ≡ 4
      at_the_head h l =
          let ok = inv.positions p in
          elim (dec_lt (lap_of z p) (q.laps (granule_of z p))) [
            | yes m ↦
                absurd
                  (omega (arith, ok.over_before m, ok.won_below (omega (arith, ok.over_before m))))
            | no m ↦
                let (st, _) = inv.slots p (omega arith) in
                filled (q.calls p).push (q.calls p).pop (λ s. n (st ∙ s))
          ]

  -- A step of a pop that won, at a position whose item was placed.
  pub pop_step :
      (p : ℕ) (b : Pop) {states' pops' : ℕ → ℕ} {storage' : ℕ → Option ℕ}
      → Fits z
      → 1 ≤ pop_rank (q.calls p).pop
      → pop_rank (q.calls p).pop ≤ 5
      → 1 ≤ pop_rank b
      → ItemOk b (q.item p)
      → ((j : ℕ) → slot_of z p ≢ j → (states' j ≡ q.states j) × (storage' j ≡ q.storage j))
      → states' (slot_of z p) ≡ held_state placed b
      → storage' (slot_of z p) ≡ held_item placed b (q.item p)
      → ((g : ℕ) → granule_of z p ≢ g → pops' g ≡ q.pops g)
      → GranuleOk z.granule_slots
          (write (pops_of z q.laps q.calls (granule_of z p)) (index_of z p) b)
          (pops' (granule_of z p))
      → Inv z (pop_goes p b (record q { states = states'; storage = storage'; pops = pops' }))
  pop_step p b {states'} {pops'} {storage'} fits lo hi new item others st ct counts here =
      let was = inv.positions p in
      let there = was.placed_first lo in
      let is_placed = placed_of_rank (q.calls p).push there in
      let served = served_of z q inv p (omega arith) hi in
      let c : Calls = record { push = (q.calls p).push; pop = b } in
      call_step z q inv p c (λ e. e)
        (record {
          begun = was.begun;
          begins = was.begins;
          won_below = λ _. was.won_below lo;
          below_won = λ _. new;
          placed_first = λ _. there;
          served_first = was.served_first;
          over_before = λ h. absurd (omega arith);
        })
        item
        (SlotsOk-write z q p fits c inv.slots served others (rw (is_placed) st) (rw (is_placed) ct))
        (GranulesOk-pop z q p fits c served inv.granules counts here)

  -- The granule of a call, and the pop in it.
  pub granule_here :
      Fits z
      → (p : ℕ) → q.laps (granule_of z p) ≡ lap_of z p
      → (GranuleOk z.granule_slots
          (pops_of z q.laps q.calls (granule_of z p))
          (q.pops (granule_of z p)))
        × (pops_of z q.laps q.calls (granule_of z p) (index_of z p) ≡ (q.calls p).pop)
  granule_here fits p served = (
    inv.granules (granule_of z p) (granule_of_lt fits p),
    rw (pops_of, served) (ap (λ x. (q.calls x).pop) (position_of_parts fits p)),
  )

  module _ (fits : Fits z) (p : ℕ) where
    -- What a call that won finds, before it is over.
    pub found :
        1 ≤ pop_rank (q.calls p).pop
        → pop_rank (q.calls p).pop ≤ 5
        → (q.laps (granule_of z p) ≡ lap_of z p)
          × (q.states (slot_of z p) ≡ held_state placed (q.calls p).pop)
          × (q.storage (slot_of z p) ≡ held_item placed (q.calls p).pop (q.item p))
    found lo hi =
        let there = (inv.positions p).placed_first lo in
        let served = served_of z q inv p (omega arith) hi in
        let e = placed_of_rank (q.calls p).push there in
        let (st, ct) = inv.slots p served in (served, rw (e) at st, rw (e) at ct)

    pub moves_out-Inv :
        {x : ℕ}
        → (q.calls p).pop ≡ won
        → q.storage (slot_of z p) ≡ some x
        → Inv z (pop_goes p (moved x) (store_item z p none q))
    moves_out-Inv {x} e s =
        let rank = ap pop_rank e in
        let (served, st, ct) = found (omega arith) (omega arith) in
        let (ok, same) = granule_here fits p served in
        let here : q.storage (slot_of z p) ≡ some (q.item p) = rw (e) at ct in
        pop_step p (moved x) fits (omega arith) (omega arith) (omega arith)
          (eq_of_some (sym s ∙ here)) (λ j n. (refl, ground arith)) (rw (e) at st) (ground arith)
          (λ _ _. refl)
          (GranuleOk-goes (index_of z p) (moved x) (index_of_lt fits p)
            (omega (arith, ap pop_rank same)) (omega arith) ok)

    pub clears_state-Inv :
        {x : ℕ} → (q.calls p).pop ≡ moved x → Inv z (pop_goes p (emptied x) (store_state z p 0 q))
    clears_state-Inv {x} e =
        let rank = ap pop_rank e in
        let (served, st, ct) = found (omega arith) (omega arith) in
        let (ok, same) = granule_here fits p served in
        pop_step p (emptied x) fits (omega arith) (omega arith) (omega arith)
          (subst (λ b. ItemOk b (q.item p)) e (inv.items p)) (λ j n. (ground arith, refl))
          (ground arith) (rw (e) at ct) (λ _ _. refl)
          (GranuleOk-goes (index_of z p) (emptied x) (index_of_lt fits p)
            (omega (arith, ap pop_rank same)) (omega arith) ok)

    -- A step of a pop that emptied its slot.
    empty_step :
        (b : Pop) {pops' : ℕ → ℕ}
        → 3 ≤ pop_rank (q.calls p).pop
        → pop_rank (q.calls p).pop ≤ 5
        → 4 ≤ pop_rank b
        → ItemOk b (q.item p)
        → ((g : ℕ) → granule_of z p ≢ g → pops' g ≡ q.pops g)
        → GranuleOk z.granule_slots
            (write (pops_of z q.laps q.calls (granule_of z p)) (index_of z p) b)
            (pops' (granule_of z p))
        → Inv z (pop_goes p b (record q { pops = pops' }))
    empty_step b lo hi new item counts here =
        let (served, st, ct) = found (omega arith) hi in
        let was = held_nothing (q.calls p).pop (q.item p) lo in
        let now = held_nothing b (q.item p) (omega arith) in
        pop_step p b fits (omega arith) hi (omega arith) item (λ j n. (refl, refl))
          (st ∙ was.0 ∙ sym now.0) (ct ∙ was.1 ∙ sym now.1) counts here

    pub counts-Inv : {x : ℕ} → (q.calls p).pop ≡ emptied x → Inv z (count_pop z p x q)
    unfolding count_pop
    counts-Inv {x} e =
        let rank = ap pop_rank e in
        let (served, st, ct) = found (omega arith) (omega arith) in
        let (ok, same) = granule_here fits p served in
        let i = index_of z p in
        let il = index_of_lt fits p in
        let g = granule_of z p in
        let three : pop_rank (pops_of z q.laps q.calls g i) ≡ 3 = ap pop_rank same ∙ rank in
        let item = subst (λ b. ItemOk b (q.item p)) e (inv.items p) in
        let below = GranuleOk-count_lt i il ok three in
        let up : add_size (q.pops g) 1 ≡ q.pops g + 1 = omega (arith, fits.small) in
        let elsewhere : (h : ℕ) → g ≢ h → write q.pops g (add_size (q.pops g) 1) h ≡ q.pops h =
          λ h n. ground arith in
        let here : write q.pops g (add_size (q.pops g) 1) g ≡ q.pops g + 1 = ground arith in
        if_rule (Inv z) z.reclaim
          (λ r.
            if_rule (Inv z) (add_size (q.pops g) 1 == z.granule_slots)
              (λ s. empty_step (last x) (omega arith) (omega arith) (omega arith) item elsewhere (
                GranuleOk-last i il ok (last x) three (ground arith) (omega arith) (omega arith)
                  (write q.pops g (add_size (q.pops g) 1) g) (λ h. absurd (omega arith))))
              (λ s.
                empty_step (done x) (omega arith) (omega arith) (omega arith) item elsewhere
                  (rw (here) (GranuleOk-done i il ok x three (ground arith)))))
          (λ r.
            let one = fits.single r in
            empty_step (turns_lap x) (omega arith) (omega arith) (omega arith) item (λ _ _. refl)
              (GranuleOk-last i il ok (turns_lap x) three (omega arith) (omega arith) (omega arith)
                (q.pops g) (λ _. omega arith)))

    pub resets_pops-Inv :
        {x : ℕ}
        → (q.calls p).pop ≡ last x
        → Inv z (pop_goes p (discards x) (record q { pops = write q.pops (granule_of z p) 0 }))
    resets_pops-Inv {x} e =
        let rank = ap pop_rank e in
        let (served, st, ct) = found (omega arith) (omega arith) in
        let (ok, same) = granule_here fits p served in
        let zero_here : write q.pops (granule_of z p) 0 (granule_of z p) ≡ 0 = ground arith in
        empty_step (discards x) (omega arith) (omega arith) (omega arith)
          (subst (λ b. ItemOk b (q.item p)) e (inv.items p)) (λ h n. ground arith)
          (rw zero_here (
            GranuleOk-closes (index_of z p) (index_of_lt fits p) ok (discards x)
              (omega (arith, ap pop_rank same)) (omega (arith, ap pop_rank same)) refl))

    -- The memory was given back.
    pub discards-Inv : {x : ℕ} → (q.calls p).pop ≡ discards x → Inv z (pop_goes p (turns_lap x) q)
    discards-Inv {x} e =
        let rank = ap pop_rank e in
        let (served, st, ct) = found (omega arith) (omega arith) in
        let (ok, same) = granule_here fits p served in
        let five = ap pop_rank same ∙ rank in
        let no_pops =
          (GranuleOk-alone (index_of z p) (index_of_lt fits p) ok (omega arith) (omega arith)).0
            five in
        empty_step (turns_lap x) (omega arith) (omega arith) (omega arith)
          (subst (λ b. ItemOk b (q.item p)) e (inv.items p)) (λ h n. refl)
          (rw no_pops (
            GranuleOk-closes (index_of z p) (index_of_lt fits p) ok (turns_lap x) (omega arith)
              (omega arith) refl))
