-- ===== src/Memory/Arena/Tests.antt =====
-- Two threads that allocate from a small block of monotonic_resource.hpp, and its theorems there.
use structured_chaos.Prelude.{
  ℕ, ◌+◌, ◌%◌, ◌^◌, ◌≤◌, ◌≡◌, ◌≢◌, refl, true, false, [], ◌∷◌, none, some, arith,
}
use structured_chaos.Memory.Arena.{Arena, fit, fits_new_block, init, reset, kept_blocks, start_over}
use structured_chaos.Memory.Arena.Threads.{
  idle, asks, has_current, has_both, Given, State, go_to, give_out, set_current, calls,
  reads_current, reads_end, takes, fails,
}
use structured_chaos.Memory.Arena.Regions.{Separate}
use structured_chaos.Memory.Arena.Fit.{fit_lem}
use structured_chaos.Memory.Arena.Safety.{Reach, started, given-Separate, read_end}

abbrev small : Arena
small = init 64 16

fit_aligns : fit 17 79 8 3 ≡ some 24
unfolding fit
fit_aligns = refl

fit_full : fit 17 79 56 3 ≡ none
unfolding fit
fit_full = refl

fits_new_block_leaves_one : (fits_new_block 63 4 small ≡ true) × (fits_new_block 64 4 small ≡ false)
unfolding fits_new_block init
fits_new_block_leaves_one = (refl, refl)

reset_keeps_first :
    (reset (record small {
      blocks =
          record { ptr = 16; size = 64; alignment = 16 }
          ∷ record { ptr = 512; size = 64; alignment = 16 }
          ∷ [];
    })).current
    ≡ 16
unfolding reset kept_blocks start_over init
reset_keeps_first = refl

-- Both threads read the same value of `m_current`.
abbrev both_read : State
both_read = go_to 1 (has_both 8 3 16 79) (
    go_to 0 (has_both 8 3 16 79) (
      go_to 1 (has_current 8 3 16)
        (go_to 0 (has_current 8 3 16) (go_to 1 (asks 8 3) (go_to 0 (asks 8 3) (started small))))))

both_read-Reach : Reach both_read
unfolding init
both_read-Reach =
    let start : Reach (started small) = Reach.from_upstream 64 16 in
    Reach.later
      (Reach.later
        (Reach.later
          (Reach.later (Reach.later (Reach.later start (calls 0 8 3 refl)) (calls 1 8 3 refl))
            (reads_current 0 refl))
          (reads_current 1 refl))
        (reads_end 0 refl))
      (reads_end 1 refl)

-- One of them takes the memory, the other one fails and takes the next.
abbrev both_took : State
both_took = go_to 1 idle (
    give_out 24 8 (
      set_current 32 (
        go_to 1 (has_both 8 3 24 79) (
          go_to 1 (has_current 8 3 24)
            (go_to 1 (asks 8 3) (go_to 0 idle (give_out 16 8 (set_current 24 both_read))))))))

both_took-Reach : Reach both_took
unfolding init fit
both_took-Reach =
    Reach.later
      (Reach.later
        (Reach.later
          (Reach.later (Reach.later both_read-Reach (takes 0 {p = 16} refl refl refl))
            (fails 1 {p = 16} refl refl))
          (reads_current 1 refl))
        (reads_end 1 refl))
      (takes 1 {p = 24} refl refl refl)

abbrev memory : ℕ → ℕ → Given
memory address bytes = record { address = address; bytes = bytes }

given-Separate_example : Separate (memory 24 8 ∷ memory 16 8 ∷ [])
given-Separate_example = given-Separate both_took-Reach

read_end_example : both_read.arena.end ≡ 79
unfolding init
read_end_example = read_end 1 both_read-Reach refl (omega arith) refl

abbrev odd : ℕ
odd = 17

fit_lem_example : (odd ≢ 0) × (odd ≤ 24) × (24 + 8 ≤ 79) × (24 % 2 ^ 3 ≡ 0)
fit_lem_example = fit_lem 17 79 8 3 fit_aligns
