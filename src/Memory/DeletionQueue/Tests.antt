-- ===== src/Memory/DeletionQueue/Tests.antt =====
-- Runs of deferred.hpp with two frames in flight, and its theorems at concrete queues.
use structured_chaos.Prelude.{ℕ, zero, suc, ◌<◌, ◌≡◌, refl, List, [], ◌∷◌, some, arith}
use structured_chaos.Memory.DeletionQueue.{
  Job, job, nil, cons, Queue, update, init, push_jobs, call_all, turn, flush, begin_frame,
  flush_all,
}
use structured_chaos.Memory.DeletionQueue.Flush.{total, weight, weight_jobs, Flushed, flush-Flushed}
use structured_chaos.Memory.DeletionQueue.Frames.{push_all, rounds, pushed_then_called}
use structured_chaos.Memory.DeletionQueue.Shutdown.{flush_all-leaves}

abbrev plain : ℕ → Job
plain n = job n nil

-- Frame 0 pushed 1 and 2, and frame 1 pushed 3.
two_frames : Queue
unfolding push_all
two_frames =
    push_all (plain 3 ∷ []) (record (push_all (plain 1 ∷ plain 2 ∷ []) (init 2)) { frame = 1 })

emptied : Queue
unfolding two_frames push_all
emptied = record two_frames { slots = update two_frames.slots 0 []; frame = 2 }

frame_two_calls_frame_zero : begin_frame 9 2 two_frames ≡ some (1 ∷ 2 ∷ [], emptied)
unfolding begin_frame flush turn call_all push_jobs two_frames push_all emptied
frame_two_calls_frame_zero = refl

pushed_then_called_example :
    (two_frames.slots 0 ≡ plain 2 ∷ plain 1 ∷ []) × ((more : List ℕ) × (1 ∷ 2 ∷ [] ≡ 1 ∷ 2 ∷ more))
unfolding rounds push_all begin_frame flush turn call_all push_jobs two_frames
pushed_then_called_example =
    pushed_then_called 9 2 0 (plain 1 ∷ plain 2 ∷ []) ((plain 3 ∷ []) ∷ []) (init 2) two_frames _
      (1 ∷ 2 ∷ []) refl refl refl refl refl refl

flush-Flushed_example : Flushed 0 two_frames 9
unfolding two_frames push_all total weight weight_jobs
flush-Flushed_example = flush-Flushed 9 0 two_frames (omega arith)

-- A queue with one function in each slot.
abbrev even_queue : Queue
even_queue = record { frames_in_flight = 2; slots = λ _. plain 5 ∷ []; frame = 0 }

-- The function of slot 1 pushes another one, in frame 0.
abbrev late_queue : Queue
late_queue = record {
  frames_in_flight = 2;
  slots = update (λ _. []) 1 (job 7 (cons (plain 8) nil) ∷ []);
  frame = 0;
}

late_queue-nil : (i : ℕ) → i < 1 → late_queue.slots i ≡ []
late_queue-nil zero h = refl
late_queue-nil (suc i) h = absurd (omega arith)

flush_all-leaves_example :
    (q' : Queue) × (flush_all 2 late_queue ≡ some (7 ∷ [], q')) × (q'.slots 0 ≡ plain 8 ∷ [])
flush_all-leaves_example =
    flush_all-leaves 0 1 7 (plain 8) late_queue refl (omega arith) late_queue-nil refl
