-- ===== src/Ecs/Planning/Tests.antt =====
-- `stagesFor` of scheduler.hpp on a system that sets off a listener and a hook and one that conflicts with
-- the hook only, and the theorems there.
use structured_chaos.Prelude.{◌≡◌, refl, true, false, Option, none, some, [], ◌∷◌, arith}
use structured_chaos.Ecs.Access.{
  SystemAccess, no_access, conflicts_with, contains, add_once, any_in, modifies_gotten, add_all,
  add_to, overlap, meets,
}
use structured_chaos.Ecs.Stages.{fill, stage_count, stage_for}
use structured_chaos.Ecs.Effective.{listeners_of, hooks_of}
use structured_chaos.Ecs.Effective.Reached.{itself, listens, hooks}
use structured_chaos.Ecs.Effective.Tests.{hunter, scorer, counter, events}
use structured_chaos.Ecs.Planning.{System, World, Scheduler, stages_for, edits_gotten}
use structured_chaos.Ecs.Planning.Together.{stages_for-apart}
use structured_chaos.Ecs.Planning.Again.{stages_for-again}
use structured_chaos.Ecs.Planning.Returns.{Returns, stages_for-Returns}

-- Reads component 9, which the hook of component 4 writes.
abbrev drawer : SystemAccess
drawer = record no_access { components = record { index = 9; write = false } ∷ [] }

-- Writes component 2.
abbrev healer : SystemAccess
healer = record no_access { components = record { index = 2; write = true } ∷ [] }

abbrev new : SystemAccess → System
new a = record { access = a; effective = no_access; loop = false }

abbrev world : Option World
world = some (record {
  address = 1;
  hook_version = 3;
  hooks = record { component = 4; access = counter } ∷ [];
})

abbrev before : Scheduler
before = record {
  systems = new hunter ∷ new drawer ∷ new healer ∷ [];
  events = events;
  stages = [];
  columns = [];
  stages_world = none;
  stages_hook_version = 0;
  stages_valid = false;
}

abbrev used : SystemAccess
used = record hunter {
  components =
      record { index = 0; write = true }
      ∷ record { index = 4; write = true }
      ∷ record { index = 9; write = true }
      ∷ [];
  modified = 4 ∷ [];
}

abbrev after : Scheduler
after = record {
  systems =
      record (new hunter) { effective = used }
      ∷ record (new drawer) { effective = drawer }
      ∷ record (new healer) { effective = healer }
      ∷ [];
  events = events;
  stages = (0 ∷ 2 ∷ []) ∷ (1 ∷ []) ∷ [];
  columns = [];
  stages_world = some 1;
  stages_hook_version = 3;
  stages_valid = true;
}

staged : stages_for 10 world before ≡ some (after, none)
unfolding stages_for contains add_once any_in modifies_gotten add_all add_to fill stage_count
    stage_for conflicts_with overlap meets
staged = refl

-- The listener edits what the system takes through a query.
abbrev reader : Scheduler
reader = record before { systems = new (record hunter { gotten = 4 ∷ [] }) ∷ [] }

thrown :
    stages_for 10 world reader
    ≡ some (
      record reader {
        systems =
            record (new (record hunter { gotten = 4 ∷ [] })) {
              effective = record used { gotten = 4 ∷ [] };
            }
            ∷ [];
      },
      some edits_gotten,
    )
unfolding stages_for contains add_once any_in modifies_gotten add_all add_to
thrown = refl

stages_for-apart_example : conflicts_with counter healer ≡ false
unfolding contains listeners_of hooks_of
stages_for-apart_example =
    stages_for-apart 10 world before after 0 2 0 (0 ∷ 2 ∷ []) (new hunter) (new healer) refl staged
      refl refl refl (omega arith) refl refl (refl, tt) tt counter healer
      (hooks scorer 4 0 counter (listens hunter 7 0 scorer itself refl refl) refl refl) itself

stages_for-again_example : stages_for 10 world after ≡ some (after, none)
stages_for-again_example = stages_for-again 10 world before after none staged

stages_for-Returns_example : Returns (λ fuel. stages_for fuel world before)
unfolding contains
stages_for-Returns_example = stages_for-Returns world before ((refl, tt), (tt, (tt, tt)))
