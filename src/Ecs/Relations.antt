-- ===== src/Ecs/Relations.antt =====
-- `forEachRelated` and `forEachDescendant` of src/sc/ecs/relation.hpp. What the world or the query gives for
-- `tryGet<const Related<Kind>>` is a parameter; a function is called for each entity of the list that is given.
pub mod Descendants
mod Tests
use structured_chaos.Prelude.{
  ℕ, zero, suc, ◌-◌, Option, none, some, List, [], ◌∷◌, ◌++◌, reverse, length, take, drop,
}

module _ (related : ℕ → Option (List ℕ)) where
  -- The entities that `forEachRelated` calls the function with.
  unfoldable pub for_each_related : ℕ → List ℕ
  for_each_related target = elim (related target) [ none ↦ [] | some sources ↦ sources ]

  -- The loop that pushes the sources; the back of the vector comes first.
  unfoldable pub push_all : List ℕ → List ℕ → List ℕ
  push_all [] stack = stack
  push_all (source ∷ sources) stack = push_all sources (source ∷ stack)

  -- `std::reverse` from the place on that was the end before.
  unfoldable pub reverse_from : ℕ → List ℕ → List ℕ
  reverse_from before stack =
      let pushed = length stack - before in reverse (take pushed stack) ++ drop pushed stack

  -- The loop of `forEachDescendant`, for so many rounds.
  unfoldable pub descend : ℕ → List ℕ → Option (List ℕ)
  unfolding for_each_related push_all reverse_from
  descend zero stack = none
  descend (suc fuel) [] = some []
  descend (suc fuel) (entity ∷ stack) =
      elim (descend fuel (reverse_from (length stack) (push_all (for_each_related entity) stack))) [
        | none ↦ none
        | some called ↦ some (entity ∷ called)
      ]

  -- The entities that `forEachDescendant` calls the function with.
  unfoldable pub for_each_descendant : ℕ → ℕ → Option (List ℕ)
  unfolding descend
  for_each_descendant fuel root =
      descend fuel (reverse_from 0 (push_all (for_each_related root) []))
