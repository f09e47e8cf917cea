-- ===== src/Threading/RingQueue/Destroying.antt =====
-- What `~RingQueue` of ring_queue.hpp destroys.
use native.Mathlib.Decide.{dec_lt}
use structured_chaos.Prelude.{ℕ, zero, suc, ◌+◌, ◌-◌, ◌≤◌, ◌<◌, ◌≡◌, refl, ap, some, map, arith}
use structured_chaos.Threading.RingQueue.{
  Sizes, slot_of, placed, Queue, Reach, destroy_from, destroy,
}
use structured_chaos.Threading.RingQueue.Geometry.{Fits}
use structured_chaos.Threading.RingQueue.Counting.{not_won_of_rank, push_rank, pop_rank}
use structured_chaos.Threading.RingQueue.Invariant.{Inv}
use structured_chaos.Threading.RingQueue.Pushing.{served_of}
use structured_chaos.Threading.RingQueue.Safety.{Reach-Inv}
use structured_chaos.Threading.RingQueue.Fifo.{view, items_from}

module _ {z : Sizes} {q : Queue} (inv : Inv z q)
    (ended : (p : ℕ) → p < q.tail → (q.calls p).push ≡ placed) where
  -- What lies at a position that no pop took.
  left_at :
      (p : ℕ)
      → q.head ≤ p
      → p < q.tail
      → (q.states (slot_of z p) ≡ 1) × (q.storage (slot_of z p) ≡ some (q.item p))
  left_at p lo hi =
      let here = ended p hi in
      let free : pop_rank (q.calls p).pop ≡ 0 = elim (dec_lt 0 (pop_rank (q.calls p).pop)) [
        | yes l ↦ absurd (omega (arith, (inv.positions p).won_below l))
        | no n ↦ omega arith
      ] in
      let untaken = not_won_of_rank (q.calls p).pop free in
      let served = served_of z q inv p (omega (arith, ap push_rank here)) (omega arith) in
      let (st, ct) = inv.slots p served in (rw (here, untaken) at st, rw (here, untaken) at ct)

  destroy_from-items :
      (n h : ℕ)
      → q.head ≤ h
      → h + n ≤ q.tail
      → destroy_from z q h n ≡ map (λ x. some x) (items_from q.item h n)
  unfolding destroy_from
  destroy_from-items zero h lo hi = refl
  destroy_from-items (suc n) h lo hi =
      let (st, ct) = left_at h lo (omega arith) in
      rw (st, ct, destroy_from-items n (suc h) (omega arith) (omega arith)) refl

-- Once every push that took a position placed its item, the destructor of a RingQueue destroys
-- the items that wait, each once, in their order, in any state that pushes and pops lead to, if
-- fewer than 2^64 items are pushed and the granules split the ring evenly.
pub destroy-waiting :
    {z : Sizes} {q : Queue}
    → Fits z
    → Reach z q
    → ((p : ℕ) → p < q.tail → (q.calls p).push ≡ placed)
    → destroy z q ≡ map (λ x. some x) (view q).waiting
destroy-waiting {z} {q} fits r ended =
    let inv = Reach-Inv fits r in
    let order = inv.order in
    destroy_from-items inv ended (q.tail - q.head) q.head (omega arith) (omega arith)
