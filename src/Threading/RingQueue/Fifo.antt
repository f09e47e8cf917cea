-- ===== src/Threading/RingQueue/Fifo.antt =====
-- The queue of ring_queue.hpp as a queue of items: first in, first out.
use native.Mathlib.Nat.{zero-add}
use structured_chaos.Prelude.{
  ℕ, zero, suc, ◌+◌, ◌-◌, ◌<◌, ◌≡◌, refl, sym, ap, ◌∙◌, subst, List, [], ◌∷◌, ◌++◌, some, get_elem?,
  arith, if_rule, ◌==◌, word, write, add_size,
}
use structured_chaos.Threading.RingQueue.{
  Sizes, granule_of, done, Queue, Step, takes_tail, finds_lap, constructs, sets_state, reads_head,
  finds_old_lap, sees_lap, finds_empty, sees_item, loses, wins, moves_out, clears_state, counts,
  resets_pops, discards_memory, turns, Reach, count_pop,
}
use structured_chaos.Threading.RingQueue.Geometry.{Fits}
use structured_chaos.Threading.RingQueue.Counting.{push_rank}
use structured_chaos.Threading.RingQueue.Invariant.{Inv}
use structured_chaos.Threading.RingQueue.Winning.{at_saw_item}
use structured_chaos.Threading.RingQueue.Safety.{Reach-Inv, popped-Fifo}

-- What a queue promises: items wait in the order in which they came, and leave in it.
pub record Fifo : Type 0 where
  pub waiting : List ℕ
  pub served : List ℕ

-- What may happen to such a queue.
pub data Action : Type 0 where
  stay : Action
  enqueue : ℕ → Action
  dequeue : Action

pub data FifoStep (f : Fifo) : Action → Fifo → Type 0 where
  stays : FifoStep f stay f
  enqueues : (x : ℕ) → FifoStep f (enqueue x) (record f { waiting = f.waiting ++ (x ∷ []) })
  dequeues :
      (x : ℕ) (rest : List ℕ)
      → f.waiting ≡ x ∷ rest
      → FifoStep f dequeue (record { waiting = rest; served = f.served ++ (x ∷ []) })

-- What an access of a push or a pop should be: the push of x that takes its position appends x, the
-- compare-exchange that wins takes the oldest item, and no other access does anything.
abbrev pub action : {z : Sizes} {q r : Queue} → Step z q r → Action
action (takes_tail x l) = enqueue x
action (finds_lap p e l) = stay
action (constructs p e) = stay
action (sets_state p e) = stay
action (reads_head t e) = stay
action (finds_old_lap t e l) = stay
action (sees_lap t e l) = stay
action (finds_empty t e l) = stay
action (sees_item t e l) = stay
action (loses t e) = stay
action (wins t e s) = dequeue
action (moves_out p e s) = stay
action (clears_state p e) = stay
action (counts p e) = stay
action (resets_pops p e) = stay
action (discards_memory p cleared e) = stay
action (turns p e) = stay

-- The n items from a position on.
abbrev pub items_from : (ℕ → ℕ) → ℕ → ℕ → List ℕ
items_from item p zero = []
items_from item p (suc n) = item p ∷ items_from item (suc p) n

-- The queue that the ring stands for.
abbrev pub view : Queue → Fifo
view q = record {
  waiting = items_from q.item q.head (q.tail - q.head);
  served = items_from q.item 0 q.head;
}

items_from_congr :
    (f g : ℕ → ℕ) (p n : ℕ)
    → ((i : ℕ) → i < p + n → f i ≡ g i)
    → items_from f p n ≡ items_from g p n
items_from_congr f g p zero h = refl
items_from_congr f g p (suc n) h =
    rw (h p (omega arith), items_from_congr f g (suc p) n (λ i l. h i (omega arith))) refl

items_from_snoc :
    (f : ℕ → ℕ) (p n : ℕ) → items_from f p (suc n) ≡ items_from f p n ++ (f (p + n) ∷ [])
items_from_snoc f p zero = ap (λ k. f k ∷ []) (omega arith)
items_from_snoc f p (suc n) =
    ap (λ t. f p ∷ t)
      (items_from_snoc f (suc p) n ∙ ap (λ k. items_from f (suc p) n ++ (f k ∷ [])) (omega arith))

pub get_elem?-items_from :
    (f : ℕ → ℕ) (p n i : ℕ) → i < n → get_elem? (items_from f p n) i ≡ some (f (p + i))
get_elem?-items_from f p zero i l = elim l [ ]
get_elem?-items_from f p (suc n) zero l = ap (λ k. some (f k)) (omega arith)
get_elem?-items_from f p (suc n) (suc i) l =
    get_elem?-items_from f (suc p) n i (omega arith) ∙ ap (λ k. some (f k)) (omega arith)

module _ (z : Sizes) (q : Queue) (inv : Inv z q) where
  enqueued :
      (x : ℕ)
      → q.tail + 1 < word
      → FifoStep (view q) (enqueue x) (record {
        waiting = items_from (write q.item q.tail x) q.head (add_size q.tail 1 - q.head);
        served = items_from (write q.item q.tail x) 0 q.head;
      })
  enqueued x l =
      let kept : (i : ℕ) → i < q.tail → q.item i ≡ write q.item q.tail x i = λ i l. ground arith in
      let order = inv.order in
      let n = q.tail - q.head in
      let more : add_size q.tail 1 - q.head ≡ suc n = omega arith in
      let here : write q.item q.tail x (q.head + n) ≡ x =
        let e : q.head + n ≡ q.tail = omega arith in rw (e) (ground arith) in
      let same =
        items_from_congr q.item (write q.item q.tail x) q.head n (λ i l. kept i (omega arith)) in
      let before =
        items_from_congr q.item (write q.item q.tail x) 0 q.head (λ i l. kept i (omega arith)) in
      let whole : items_from (write q.item q.tail x) q.head (add_size q.tail 1 - q.head)
          ≡ items_from q.item q.head n ++ (x ∷ []) =
        ap (items_from (write q.item q.tail x) q.head) more
        ∙ items_from_snoc (write q.item q.tail x) q.head n
        ∙ ap (λ k. items_from (write q.item q.tail x) q.head n ++ (k ∷ [])) here
        ∙ ap (λ k. k ++ (x ∷ [])) (sym same) in
      subst
        (λ w.
          FifoStep (view q) (enqueue x)
            (record { waiting = w; served = items_from (write q.item q.tail x) 0 q.head }))
        (sym whole)
        (subst
          (λ s.
            FifoStep (view q) (enqueue x)
              (record { waiting = items_from q.item q.head n ++ (x ∷ []); served = s }))
          before (enqueues x))

  dequeued :
      q.head < q.tail
      → FifoStep (view q) dequeue (record {
        waiting = items_from q.item (add_size q.head 1) (q.tail - add_size q.head 1);
        served = items_from q.item 0 (add_size q.head 1);
      })
  dequeued l =
      let small = inv.small in
      let up : add_size q.head 1 ≡ suc q.head = omega arith in
      let one : q.tail - q.head ≡ suc (q.tail - suc q.head) = omega arith in
      rw (up, items_from_snoc q.item 0 q.head, zero-add)
        (dequeues (q.item q.head) (items_from q.item (suc q.head) (q.tail - suc q.head))
          (ap (items_from q.item q.head) one))

  -- What a count of pops does to the queue of items: nothing.
  count_pop-view : (p x : ℕ) → view (count_pop z p x q) ≡ view q
  unfolding count_pop
  count_pop-view p x =
      if_rule (λ (r : Queue). view r ≡ view q) z.reclaim
        (λ _.
          if_rule (λ (r : Queue). view r ≡ view q)
            (add_size (q.pops (granule_of z p)) 1 == z.granule_slots) (λ _. refl) (λ _. refl))
        (λ _. refl)

-- Each step of any number of concurrent pushes and pops of a RingQueue, from a state that such
-- steps lead to, is the action of a first-in-first-out queue that it should be: the push of x
-- that takes its tail position appends x, the pop that wins the head takes the oldest item, and
-- no other access changes what waits or in which order it left. Fewer than 2^64 items are pushed,
-- and the granules split the ring evenly.
pub Step-refines-Fifo :
    {z : Sizes} {q r : Queue}
    → Fits z
    → Reach z q
    → (st : Step z q r) → FifoStep (view q) (action st) (view r)
Step-refines-Fifo {z} {q} fits h (takes_tail x l) = enqueued z q (Reach-Inv fits h) x l
Step-refines-Fifo fits h (finds_lap p e l) = stays
Step-refines-Fifo fits h (constructs p e) = stays
Step-refines-Fifo fits h (sets_state p e) = stays
Step-refines-Fifo fits h (reads_head t e) = stays
Step-refines-Fifo fits h (finds_old_lap t e l) = stays
Step-refines-Fifo fits h (sees_lap t e l) = stays
Step-refines-Fifo fits h (finds_empty t e l) = stays
Step-refines-Fifo fits h (sees_item t e l) = stays
Step-refines-Fifo fits h (loses t e) = stays
Step-refines-Fifo {z} {q} fits h (wins t {p} e s) =
    let inv = Reach-Inv fits h in
    let full = (at_saw_item z q inv fits t e s).0 in
    let in_use = (inv.positions p).begun (omega (arith, ap push_rank full)) in
    subst
      (λ k. FifoStep (view q) dequeue (record {
        waiting = items_from q.item (add_size k 1) (q.tail - add_size k 1);
        served = items_from q.item 0 (add_size k 1);
      }))
      s (dequeued z q inv (omega arith))
Step-refines-Fifo fits h (moves_out p e s) = stays
Step-refines-Fifo fits h (clears_state p e) = stays
Step-refines-Fifo {z} {q} fits h (counts p {x} e) =
    subst (FifoStep (view q) stay) (sym (count_pop-view z q (Reach-Inv fits h) p x)) stays
Step-refines-Fifo fits h (resets_pops p e) = stays
Step-refines-Fifo fits h (discards_memory p cleared e) = stays
Step-refines-Fifo fits h (turns p e) = stays

-- The item that a finished pop returned is the one that the first-in-first-out queue served at
-- its position, whatever order the steps of pushes and pops come in, if fewer than 2^64 items are
-- pushed and the granules split the ring evenly.
pub popped-get_elem? :
    {z : Sizes} {q : Queue}
    → Fits z
    → Reach z q
    → (p : ℕ) {x : ℕ} → (q.calls p).pop ≡ done x
    → get_elem? (view q).served p ≡ some x
popped-get_elem? {z} {q} fits r p e =
    let (same, below, _) = popped-Fifo fits r p e in
    get_elem?-items_from q.item 0 q.head p below ∙ rw (zero-add, same) refl
