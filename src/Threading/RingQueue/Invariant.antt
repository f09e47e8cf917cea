-- ===== src/Threading/RingQueue/Invariant.antt =====
-- The invariant of the queue of ring_queue.hpp.
use structured_chaos.Prelude.{
  ℕ, ◌≤◌, ◌<◌, ◌≡◌, ◌≢◌, refl, sym, ap, ◌∙◌, subst, Option, none, some, arith, Bool-cases, inl, inr,
  ◌==◌, write, all-write, word,
}
use structured_chaos.Threading.RingQueue.{
  Sizes, slot_of, lap_of, granule_of, Push, to_come, waits, has_lap, wrote, placed, Pop, not_won,
  won, moved, emptied, last, discards, turns_lap, done, Look, idle, at_head, saw_lap, saw_item,
  Calls, Queue,
}
use structured_chaos.Threading.RingQueue.Geometry.{
  Fits, index_of, position, granule_of_lt, position_of_parts, granule_of-position,
  index_of-position, slot_of-lap_of-injective, granule_of_slot,
}
use structured_chaos.Threading.RingQueue.Counting.{push_rank, pop_rank, GranuleOk, GranuleOk-congr}

-- How far a position in a lap is, by head, tail and the lap that its granule serves.
pub record PositionOk (p lap head tail served : ℕ) (c : Calls) : Type 0 where
  pub begun : 1 ≤ push_rank c.push → p < tail
  pub begins : p < tail → 1 ≤ push_rank c.push
  pub won_below : 1 ≤ pop_rank c.pop → p < head
  pub below_won : p < head → 1 ≤ pop_rank c.pop
  pub placed_first : 1 ≤ pop_rank c.pop → push_rank c.push ≡ 4
  pub served_first : 2 ≤ push_rank c.push → lap ≤ served
  pub over_before : lap < served → pop_rank c.pop ≡ 6

-- `state` and `storage` of the slot of a position in the lap that its granule serves.
abbrev pub held_state : Push → Pop → ℕ
held_state to_come b = 0
held_state waits b = 0
held_state has_lap b = 0
held_state wrote b = 0
held_state placed not_won = 1
held_state placed won = 1
held_state placed (moved x) = 1
held_state placed (emptied x) = 0
held_state placed (last x) = 0
held_state placed (discards x) = 0
held_state placed (turns_lap x) = 0
held_state placed (done x) = 0

abbrev pub held_item : Push → Pop → ℕ → Option ℕ
held_item to_come b x = none
held_item waits b x = none
held_item has_lap b x = none
held_item wrote b x = some x
held_item placed not_won x = some x
held_item placed won x = some x
held_item placed (moved y) x = none
held_item placed (emptied y) x = none
held_item placed (last y) x = none
held_item placed (discards y) x = none
held_item placed (turns_lap y) x = none
held_item placed (done y) x = none

-- What a pop moved out is what was pushed.
abbrev pub ItemOk : Pop → ℕ → Type 0
ItemOk not_won x = Unit {0}
ItemOk won x = Unit {0}
ItemOk (moved y) x = y ≡ x
ItemOk (emptied y) x = y ≡ x
ItemOk (last y) x = y ≡ x
ItemOk (discards y) x = y ≡ x
ItemOk (turns_lap y) x = y ≡ x
ItemOk (done y) x = y ≡ x

module _ (z : Sizes) where
  abbrev pub SlotsOk : (ℕ → ℕ) → (ℕ → ℕ) → (ℕ → Option ℕ) → (ℕ → ℕ) → (ℕ → Calls) → Type 0
  SlotsOk laps states storage item calls =
      (p : ℕ)
      → laps (granule_of z p) ≡ lap_of z p
      → (states (slot_of z p) ≡ held_state (calls p).push (calls p).pop)
        × (storage (slot_of z p) ≡ held_item (calls p).push (calls p).pop (item p))

  -- The pops of a granule in the lap that it serves.
  abbrev pub pops_of : (ℕ → ℕ) → (ℕ → Calls) → ℕ → ℕ → Pop
  pops_of laps calls g i = (calls (position z (laps g) g i)).pop

  abbrev pub GranulesOk : (ℕ → ℕ) → (ℕ → ℕ) → (ℕ → Calls) → Type 0
  GranulesOk laps pops calls =
      (g : ℕ) → g < z.num_granules → GranuleOk z.granule_slots (pops_of laps calls g) (pops g)

  -- What a pop that has not won knows, if the position that it read is still the head.
  abbrev pub LookOk : ℕ → (ℕ → ℕ) → (ℕ → Calls) → Look → Type 0
  LookOk head laps calls idle = Unit {0}
  LookOk head laps calls (at_head p) = p ≤ head
  LookOk head laps calls (saw_lap p) = (p ≤ head) × (head ≡ p → lap_of z p ≤ laps (granule_of z p))
  LookOk head laps calls (saw_item p) = (p ≤ head) × (head ≡ p → push_rank (calls p).push ≡ 4)

  pub record Inv (q : Queue) : Type 0 where
    pub order : q.head ≤ q.tail
    pub small : q.tail < word
    pub positions :
        (p : ℕ) → PositionOk p (lap_of z p) q.head q.tail (q.laps (granule_of z p)) (q.calls p)
    pub slots : SlotsOk q.laps q.states q.storage q.item q.calls
    pub items : (p : ℕ) → ItemOk (q.calls p).pop (q.item p)
    pub granules : GranulesOk q.laps q.pops q.calls
    pub looks : (t : ℕ) → LookOk q.head q.laps q.calls (q.looks t)

  -- What a pop knows stays true.
  pub LookOk-mono :
      (head head' : ℕ) (laps laps' : ℕ → ℕ) (calls calls' : ℕ → Calls) (l : Look)
      → head ≤ head'
      → ((g : ℕ) → laps g ≤ laps' g)
      → ((p : ℕ) → push_rank (calls p).push ≡ 4 → push_rank (calls' p).push ≡ 4)
      → LookOk head laps calls l
      → LookOk head' laps' calls' l
  LookOk-mono head head' laps laps' calls calls' idle h g c ok = tt
  LookOk-mono head head' laps laps' calls calls' (at_head p) h g c ok = omega arith
  LookOk-mono head head' laps laps' calls calls' (saw_lap p) h g c (le, k) =
      (omega arith, λ e. omega (arith, k (omega arith), g (granule_of z p)))
  LookOk-mono head head' laps laps' calls calls' (saw_item p) h g c (le, k) =
      (omega arith, λ e. c p (k (omega arith)))

  module _ (q : Queue) (p : ℕ) where
    -- A step of the call at a position that its granule serves, which changes its slot only.
    pub SlotsOk-write :
        {states' : ℕ → ℕ} {storage' : ℕ → Option ℕ} (fits : Fits z) (c : Calls)
        → SlotsOk q.laps q.states q.storage q.item q.calls
        → q.laps (granule_of z p) ≡ lap_of z p
        → ((j : ℕ) → slot_of z p ≢ j → (states' j ≡ q.states j) × (storage' j ≡ q.storage j))
        → states' (slot_of z p) ≡ held_state c.push c.pop
        → storage' (slot_of z p) ≡ held_item c.push c.pop (q.item p)
        → SlotsOk q.laps states' storage' q.item (write q.calls p c)
    SlotsOk-write {states'} {storage'} fits c ok served others st ct =
        all-write
          (λ x a.
            q.laps (granule_of z x) ≡ lap_of z x
            → (states' (slot_of z x) ≡ held_state a.push a.pop)
              × (storage' (slot_of z x) ≡ held_item a.push a.pop (q.item x)))
          q.calls p c (λ _. (st, ct))
          (λ x n e.
            let apart : slot_of z p ≢ slot_of z x = λ s. n (
              slot_of-lap_of-injective fits p x s
                (sym served ∙ ap q.laps (granule_of_slot z p x s) ∙ e)) in
            (
              (others (slot_of z x) apart).0 ∙ (ok x e).0,
              (others (slot_of z x) apart).1 ∙ (ok x e).1,
            ))

    -- A step of a push changes no pop.
    pub GranulesOk-push :
        (a : Push)
        → GranulesOk q.laps q.pops q.calls
        → GranulesOk q.laps q.pops (write q.calls p (record { push = a; pop = (q.calls p).pop }))
    GranulesOk-push a ok g l = GranuleOk-congr (λ i b. same (position z (q.laps g) g i)) (ok g l)
      where
        new : Calls
        new = record { push = a; pop = (q.calls p).pop }

        same : (x : ℕ) → (q.calls x).pop ≡ (write q.calls p new x).pop
        same = all-write (λ x c. (q.calls x).pop ≡ c.pop) q.calls p new refl (λ _ _. refl)

    module _ (fits : Fits z) (c : Calls) where
      pops_of-here :
          (served : q.laps (granule_of z p) ≡ lap_of z p) (i : ℕ)
          → i < z.granule_slots
          → write (pops_of q.laps q.calls (granule_of z p)) (index_of z p) c.pop i
            ≡ (write q.calls p c (position z (q.laps (granule_of z p)) (granule_of z p) i)).pop
      pops_of-here served i l = elim (Bool-cases (index_of z p == i)) [
        | inl s ↦
            let e : index_of z p ≡ i = ground arith in
            let there : position z (q.laps (granule_of z p)) (granule_of z p) i ≡ p =
              rw (served, sym e) (position_of_parts fits p) in
            ground arith
        | inr o ↦
            let apart : p ≢ position z (q.laps (granule_of z p)) (granule_of z p) i = λ e.
              let same =
                ap (index_of z) e
                ∙ index_of-position fits (q.laps (granule_of z p)) (granule_of_lt fits p) l in
              absurd (ground arith) in
            ground arith
      ]

      pub pops_of-there :
          (g i : ℕ)
          → g < z.num_granules
          → i < z.granule_slots
          → granule_of z p ≢ g
          → (q.calls (position z (q.laps g) g i)).pop
            ≡ (write q.calls p c (position z (q.laps g) g i)).pop
      pops_of-there g i l m n =
          let apart : p ≢ position z (q.laps g) g i =
            λ e. n (ap (granule_of z) e ∙ granule_of-position fits (q.laps g) l m) in
          ground arith

      -- A step of a pop at a position that its granule serves is one in its granule.
      pub GranulesOk-pop :
          {pops' : ℕ → ℕ}
          → q.laps (granule_of z p) ≡ lap_of z p
          → GranulesOk q.laps q.pops q.calls
          → ((g : ℕ) → granule_of z p ≢ g → pops' g ≡ q.pops g)
          → GranuleOk z.granule_slots
              (write (pops_of q.laps q.calls (granule_of z p)) (index_of z p) c.pop)
              (pops' (granule_of z p))
          → GranulesOk q.laps pops' (write q.calls p c)
      GranulesOk-pop {pops'} served ok others here g l = elim (Bool-cases (granule_of z p == g)) [
        | inl s ↦
            let e : granule_of z p ≡ g = ground arith in
            subst (λ k. GranuleOk z.granule_slots (pops_of q.laps (write q.calls p c) k) (pops' k))
              e (GranuleOk-congr (pops_of-here served) here)
        | inr o ↦
            let n : granule_of z p ≢ g = ground arith in
            rw (others g n) (GranuleOk-congr (λ i m. pops_of-there g i l m n) (ok g l))
      ]
