-- ===== src/Threading/RingQueue/Discarding.antt =====
-- The pop of ring_queue.hpp that gives the memory of a granule back to the system keeps the invariant.
use structured_chaos.Prelude.{
  ℕ, ◌+◌, ◌-◌, ◌*◌, ◌<◌, ◌≡◌, refl, sym, subst, Bool, true, ◌&&◌, none, arith, if_rule,
  if◌then◌else◌,
}
use structured_chaos.Threading.RingQueue.{
  Sizes, granule_of, discards, turns_lap, Queue, pop_goes, in_granule, discard_memory,
}
use structured_chaos.Threading.RingQueue.Geometry.{Fits}
use structured_chaos.Threading.RingQueue.Invariant.{Inv}
use structured_chaos.Threading.RingQueue.Popping.{discards-Inv}
use structured_chaos.Threading.RingQueue.Turning.{granule_empty}

module _ (z : Sizes) (q : Queue) (inv : Inv z q) (fits : Fits z) (p : ℕ) {x : ℕ}
    (e : (q.calls p).pop ≡ discards x) where
  -- The slots of the granule are empty.
  pub discarded_empty :
      (i : ℕ)
      → i < z.granule_slots
      → (q.states (granule_of z p * z.granule_slots + i) ≡ 0)
        × (q.storage (granule_of z p * z.granule_slots + i) ≡ none)
  discarded_empty i l =
      let turning : ((pop_goes p (turns_lap x) q).calls p).pop ≡ turns_lap x = ground arith in
      granule_empty z (pop_goes p (turns_lap x) q) (discards-Inv z q inv fits p e) fits p turning i
        l

  empty_there :
      (i : ℕ) → in_granule z (granule_of z p) i ≡ true → (q.states i ≡ 0) × (q.storage i ≡ none)
  empty_there i h =
      let k = i - granule_of z p * z.granule_slots in
      let there : granule_of z p * z.granule_slots + k ≡ i = ground arith in
      subst (λ j. (q.states j ≡ 0) × (q.storage j ≡ none)) there (discarded_empty k (ground arith))

  -- So zeros in them are what they held.
  nothing_lost :
      (cleared : ℕ → Bool) (i : ℕ)
      → ((if in_granule z (granule_of z p) i && cleared i then 0 else q.states i) ≡ q.states i)
        × ((if in_granule z (granule_of z p) i && cleared i then none else q.storage i)
            ≡ q.storage i)
  nothing_lost cleared i = (
    if_rule (λ n. n ≡ q.states i) (in_granule z (granule_of z p) i && cleared i)
        (λ h. sym (empty_there i (ground arith)).0) (λ _. refl),
    if_rule (λ o. o ≡ q.storage i) (in_granule z (granule_of z p) i && cleared i)
        (λ h. sym (empty_there i (ground arith)).1) (λ _. refl),
  )

  discard_memory-same : (cleared : ℕ → Bool) → discard_memory z (granule_of z p) cleared q ≡ q
  discard_memory-same cleared = λ t. record q {
    states = λ i. (nothing_lost cleared i).0 t;
    storage = λ i. (nothing_lost cleared i).1 t;
  }

  pub discards_memory-Inv :
      (cleared : ℕ → Bool)
      → Inv z (pop_goes p (turns_lap x) (discard_memory z (granule_of z p) cleared q))
  discards_memory-Inv cleared =
      subst (λ r. Inv z (pop_goes p (turns_lap x) r)) (sym (discard_memory-same cleared))
        (discards-Inv z q inv fits p e)
