-- ===== src/Memory/CleanupList/Tests.antt =====
-- Two threads that remember objects of cleanup_list.hpp, one of which has to try again, and `runAll` after
-- them, where a destructor remembers a third object.
use structured_chaos.Prelude.{ℕ, ◌≡◌, refl, none, some, List, [], ◌∷◌, arith, if◌then◌else◌, ◌==◌}
use structured_chaos.Memory.CleanupList.{
  CleanupList, read_head, swap_head, run_all, Calls, no_calls, begin, link, retry, Reach, none_yet,
  steps, begins, links, fails,
}
use structured_chaos.Memory.CleanupList.Running.{newest_first, run_all-newest_first}

-- Both read the empty list, 5 is first, and 8 fails once.
abbrev raced : Calls
raced = link 8 (retry 8 (link 5 (begin 8 (begin 5 no_calls))))

raced-Reach : Reach raced
unfolding read_head swap_head
raced-Reach =
    steps _ _
      (steps _ _
        (steps _ _ (steps _ _ (steps _ _ none_yet (begins 5 refl)) (begins 8 refl))
          (links 5 refl refl))
        (fails 8 refl))
      (links 8 refl refl)

-- The destructor of 8 remembers 9.
abbrev made : ℕ → List ℕ
made n = if n == 8 then 9 ∷ [] else []

all_run : newest_first made 2 raced.order ≡ 8 ∷ 5 ∷ 9 ∷ []
all_run = refl

run_all-newest_first_example :
    (s : CleanupList) × (run_all made 4 3 raced.list ≡ some (s, newest_first made 2 raced.order))
    × (s.head ≡ none)
run_all-newest_first_example =
    run_all-newest_first made 4 2 raced raced-Reach
      (((refl, refl, tt), (tt, tt)), omega arith, ((tt, tt), omega arith, refl))
