-- ===== src/Ecs/Stages/Tests.antt =====
-- Runs of the access lists and the stages of scheduler.hpp on small systems, and the theorems there.
use structured_chaos.Prelude.{
  ℕ, suc, ◌<◌, ◌≡◌, refl, Bool, true, false, List, [], ◌∷◌, some, arith, get_elem?,
}
use structured_chaos.Ecs.Access.{
  Access, SystemAccess, no_access, add_to, add, meets, overlap, conflicts_with,
}
use structured_chaos.Ecs.Access.Conflicts.{conflicts_with_comm}
use structured_chaos.Ecs.Stages.{stage_for, assign, stage_count, fill, stages}
use structured_chaos.Ecs.Stages.Assign.{conflicting_later, stage_has_Reason}

abbrev access : ℕ → Bool → Access
access i w = record { index = i; write = w }

-- Moves: writes component 0, reads component 1.
abbrev mover : SystemAccess
mover = record no_access { components = access 0 true ∷ access 1 false ∷ [] }

-- Heals: writes component 2.
abbrev healer : SystemAccess
healer = record no_access { components = access 2 true ∷ [] }

-- Draws: reads components 0 and 2.
abbrev drawer : SystemAccess
drawer = record no_access { components = access 0 false ∷ access 2 false ∷ [] }

abbrev systems : List SystemAccess
systems = mover ∷ healer ∷ drawer ∷ []

add_twice : (add 1 false (add 1 true no_access)).components ≡ access 1 true ∷ []
unfolding add add_to
add_twice = refl

two_stages : stages systems ≡ (0 ∷ 1 ∷ []) ∷ (2 ∷ []) ∷ []
unfolding stages assign stage_for stage_count fill conflicts_with overlap meets
two_stages = refl

conflicts_with_comm_example : conflicts_with mover drawer ≡ conflicts_with drawer mover
conflicts_with_comm_example = conflicts_with_comm mover drawer

conflicting_later_example : 0 < 1
unfolding assign stage_for conflicts_with overlap meets
conflicting_later_example =
    conflicting_later systems 0 2 mover drawer 0 1 (omega arith) refl refl refl

stage_has_Reason_example :
    (i : ℕ) × (a : SystemAccess) × (s : ℕ) × (i < 2)
    × (get_elem? (assign [] systems) i ≡ some (a, s))
    × (conflicts_with drawer a ≡ true)
    × (suc s ≡ 1)
unfolding assign stage_for conflicts_with overlap meets
stage_has_Reason_example = stage_has_Reason systems 2 drawer 1 refl (omega arith)
