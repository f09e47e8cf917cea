-- ===== src/Ecs/Relations/Tests.antt =====
-- A small tree for `forEachDescendant` of relation.hpp, and the theorem there.
use structured_chaos.Prelude.{ℕ, zero, suc, ◌≡◌, refl, Option, none, some, List, [], ◌∷◌}
use structured_chaos.Ecs.Relations.{for_each_related, for_each_descendant}
use structured_chaos.Ecs.Relations.Descendants.{for_each_descendant-preorder}

-- A body with two arms, the first of which has a hand.
abbrev children : ℕ → Option (List ℕ)
children zero = some (1 ∷ 2 ∷ [])
children (suc zero) = some (3 ∷ [])
children (suc (suc n)) = none

parts : for_each_descendant children 4 0 ≡ some (1 ∷ 3 ∷ 2 ∷ [])
unfolding for_each_descendant
parts = refl

for_each_descendant-preorder_example : for_each_descendant children 4 0 ≡ some (1 ∷ 3 ∷ 2 ∷ [])
unfolding for_each_related
for_each_descendant-preorder_example =
    for_each_descendant-preorder children 1 0 ((refl, tt), (tt, tt))
