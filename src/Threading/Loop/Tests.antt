-- ===== src/Threading/Loop/Tests.antt =====
-- Loops of parallel_for.hpp with five items in chunks of two, and the theorems there.
use structured_chaos.Prelude.{ℕ, ◌≤◌, ◌≡◌, refl, false, [], ◌∷◌, arith}
use structured_chaos.Threading.Loop.{
  Call, alone, parallel_for_alone, ready, finished, Job, new_job, go_to, take_chunk, takes, returns,
  Reach, started, later, covers, in_range,
}
use structured_chaos.Threading.Loop.Coverage.{called_once, all_called}

abbrev items : ℕ → ℕ → Call
items a b = record { first = a; last = b }

alone_chunks : parallel_for_alone 5 2 ≡ items 0 2 ∷ items 2 4 ∷ items 4 5 ∷ []
unfolding parallel_for_alone alone
alone_chunks = refl

-- The owner and a helper take a chunk each, the owner takes the last one and finds the end.
abbrev whole : Job
whole =
    take_chunk 5 2 0 (
      go_to 0 ready
        (take_chunk 5 2 0 (go_to 0 ready (take_chunk 5 2 1 (take_chunk 5 2 0 new_job)))))

whole-Reach : Reach 5 2 2 whole
unfolding take_chunk
whole-Reach =
    later
      (later
        (later
          (later (later (later started (takes 0 (omega arith) refl)) (takes 1 (omega arith) refl))
            (returns 0 refl))
          (takes 0 (omega arith) refl))
        (returns 0 refl))
      (takes 0 (omega arith) refl)

whole_calls : whole.calls ≡ items 4 5 ∷ items 2 4 ∷ items 0 2 ∷ []
unfolding take_chunk
whole_calls = refl

whole_finished : (whole.locals 0 ≡ finished) × (whole.failed ≡ false)
unfolding take_chunk
whole_finished = (refl, refl)

called_once_example : covers 3 whole.calls ≤ in_range 0 5 3
called_once_example = called_once 5 2 2 (omega arith) (omega arith) 3 whole-Reach

all_called_example : covers 4 whole.calls ≡ in_range 0 5 4
all_called_example =
    all_called 5 2 2 (omega arith) (omega arith) 0 4 whole-Reach whole_finished.0 whole_finished.1
