-- ===== src/Threading/FutureGroup/Tests.antt =====
-- Groups of future_group.hpp with a value that comes, an exception and an invalid future.
use structured_chaos.Prelude.{ℕ, ◌≡◌, refl, true, List, [], ◌∷◌, length}
use structured_chaos.Threading.FutureGroup.{
  value, exception, Future, invalid, coming, there, wait, ready, valid_count, get_all, get,
}
use structured_chaos.Threading.FutureGroup.Collecting.{results, collected, get-collected}

abbrev group : List (Future ℕ ℕ)
group =
    coming (value 1) ∷ invalid ∷ there (exception 7) ∷ there (value 2) ∷ coming (exception 8) ∷ []

get_rethrows_first : (get group).1 ≡ exception 7
unfolding get get_all
get_rethrows_first = refl

wait_makes_ready : ready (wait group) ≡ true
unfolding ready wait
wait_makes_ready = refl

get-collected_example :
    ((get group).1 ≡ collected (results group))
    × (valid_count (get group).0 ≡ 0)
    × (length (get group).0 ≡ 5)
get-collected_example = get-collected group
