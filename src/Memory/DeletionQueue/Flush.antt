-- ===== src/Memory/DeletionQueue/Flush.antt =====
-- The loop of `flush` in deferred.hpp: it ends, empties its slot and leaves the others alone.
use structured_chaos.Prelude.{
  ℕ, zero, suc, ◌+◌, ◌≤◌, ◌<◌, ◌≡◌, ◌≢◌, refl, ap, ◌∙◌, List, [], ◌∷◌, ◌++◌, reverse, some, length,
  length-append, arith,
}
use mathlib.Core.List.{reverse-cons}
use structured_chaos.Memory.DeletionQueue.{
  Job, job, Jobs, nil, cons, Queue, update, slot_of, push, push_jobs, call_all, turn, flush,
}

-- How many functions there are, those that they push included.
unfoldable mutual
  pub weight : Job → ℕ
  weight (job n js) = suc (weight_jobs js)

  pub weight_jobs : Jobs → ℕ
  weight_jobs nil = 0
  weight_jobs (cons j js) = weight j + weight_jobs js

unfoldable pub total : List Job → ℕ
total [] = 0
total (j ∷ js) = weight j + total js

total-append : (xs ys : List Job) → total (xs ++ ys) ≡ total xs + total ys
unfolding total
total-append [] ys = omega arith
total-append (x ∷ xs) ys = omega (arith, total-append xs ys)

total-reverse : (xs : List Job) → total (reverse xs) ≡ total xs
unfolding total
total-reverse [] = refl
total-reverse (x ∷ xs) =
    omega
      (arith, ap total (reverse-cons x xs), total-append (reverse xs) (x ∷ []), total-reverse xs)

-- Nothing but the slots changes, and of those only the one of the frame.
pub push_jobs-frame :
    (js : Jobs) (q : Queue)
    → ((push_jobs js q).frame ≡ q.frame) × ((push_jobs js q).frames_in_flight ≡ q.frames_in_flight)
unfolding push_jobs
push_jobs-frame nil q = (refl, refl)
push_jobs-frame (cons j js) q = push_jobs-frame js (push j q)

pub push_jobs-slots :
    (js : Jobs) (q : Queue) (i : ℕ) → slot_of q q.frame ≢ i → (push_jobs js q).slots i ≡ q.slots i
unfolding push_jobs
push_jobs-slots nil q i h = refl
push_jobs-slots (cons j js) q i h = ground (arith, push_jobs-slots js (push j q) i h)

push_jobs-total :
    (js : Jobs) (q : Queue) (i : ℕ)
    → total ((push_jobs js q).slots i) ≤ total (q.slots i) + weight_jobs js
unfolding push_jobs total weight_jobs
push_jobs-total nil q i = omega arith
push_jobs-total (cons j js) q i = ground (arith, push_jobs-total js (push j q) i)

pub call_all-frame :
    (l : List Job) (q : Queue)
    → ((call_all l q).1.frame ≡ q.frame) × ((call_all l q).1.frames_in_flight ≡ q.frames_in_flight)
unfolding call_all
call_all-frame [] q = (refl, refl)
call_all-frame (job n js ∷ rest) q =
    let t = call_all-frame rest (push_jobs js q) in
    let p = push_jobs-frame js q in (t.0 ∙ p.0, t.1 ∙ p.1)

pub call_all-slots :
    (l : List Job) (q : Queue) (i : ℕ)
    → slot_of q q.frame ≢ i
    → (call_all l q).1.slots i ≡ q.slots i
unfolding call_all
call_all-slots [] q i h = refl
call_all-slots (job n js ∷ rest) q i h =
    let p = push_jobs-frame js q in
    call_all-slots rest (push_jobs js q) i (rw (p.0, p.1) h) ∙ push_jobs-slots js q i h

call_all-total :
    (l : List Job) (q : Queue) (i : ℕ)
    → total ((call_all l q).1.slots i) + length l ≤ total (q.slots i) + total l
unfolding call_all total weight
call_all-total [] q i = omega arith
call_all-total (job n js ∷ rest) q i =
    omega (arith, call_all-total rest (push_jobs js q) i, push_jobs-total js q i)

total_nil : total [] ≡ 0
unfolding total
total_nil = refl

turn-frame :
    (l : List Job) (i : ℕ) (q : Queue)
    → ((turn l i q).1.frame ≡ q.frame) × ((turn l i q).1.frames_in_flight ≡ q.frames_in_flight)
unfolding turn
turn-frame l i q = call_all-frame (reverse l) (record q { slots = update q.slots i [] })

pub flush-nil : (fuel i : ℕ) (q : Queue) → q.slots i ≡ [] → flush (suc fuel) i q ≡ some ([], q)
unfolding flush
flush-nil fuel i q e = rw (e, flush)

pub flush-cons :
    (fuel i : ℕ) (q : Queue) (j : Job) (js : List Job) {called : List ℕ} {q' : Queue}
    → q.slots i ≡ j ∷ js
    → flush fuel i (turn (j ∷ js) i q).1 ≡ some (called, q')
    → flush (suc fuel) i q ≡ some ((turn (j ∷ js) i q).0 ++ called, q')
unfolding flush
flush-cons fuel i q j js e f = rw (e, flush, f)

-- What `flush` of a slot gives.
pub record Flushed (i : ℕ) (q : Queue) (fuel : ℕ) : Type 0 where
  pub called : List ℕ
  pub result : Queue
  pub ran : flush fuel i q ≡ some (called, result)
  pub emptied : result.slots i ≡ []
  pub same_frame : result.frame ≡ q.frame
  pub same_count : result.frames_in_flight ≡ q.frames_in_flight

turn-total :
    (i : ℕ) (q : Queue) (j : Job) (js : List Job)
    → q.slots i ≡ j ∷ js
    → total ((turn (j ∷ js) i q).1.slots i) < total (q.slots i)
unfolding turn
turn-total i q j js e = ground (
  arith,
  call_all-total (reverse (j ∷ js)) (record q { slots = update q.slots i [] }) i,
  total-reverse (j ∷ js),
  ap length (reverse-cons j js),
  length-append (reverse js) (j ∷ []),
  ap total e,
  total_nil,
)

-- With more fuel than there are functions in the slot, those they push included, the flush of a
-- slot ends with the slot empty and the frame and the number of slots as they were.
pub flush-Flushed : (fuel i : ℕ) (q : Queue) → total (q.slots i) < fuel → Flushed i q fuel
flush-Flushed zero i q h = absurd (omega arith)
flush-Flushed (suc fuel) i q h =
    by_slot (q.slots i) refl
      (λ j js e. flush-Flushed fuel i (turn (j ∷ js) i q).1 (omega (arith, turn-total i q j js e)))
  where
    by_slot :
        (l : List Job)
        → q.slots i ≡ l
        → ((j : Job) (js : List Job) → q.slots i ≡ j ∷ js → Flushed i (turn (j ∷ js) i q).1 fuel)
        → Flushed i q (suc fuel)
    by_slot [] e again = record {
      called = [];
      result = q;
      ran = flush-nil fuel i q e;
      emptied = e;
      same_frame = refl;
      same_count = refl;
    }
    by_slot (j ∷ js) e again =
        let r = again j js e in
        record {
          called = (turn (j ∷ js) i q).0 ++ r.called;
          result = r.result;
          ran = flush-cons fuel i q j js e r.ran;
          emptied = r.emptied;
          same_frame = r.same_frame ∙ (turn-frame (j ∷ js) i q).0;
          same_count = r.same_count ∙ (turn-frame (j ∷ js) i q).1;
        }
