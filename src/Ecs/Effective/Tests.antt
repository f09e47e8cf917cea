-- ===== src/Ecs/Effective/Tests.antt =====
-- `effectiveAccess` of scheduler.hpp on a system whose event has a listener, which edits a component with
-- a hook that emits the event again, and the theorems there.
use structured_chaos.Prelude.{ℕ, ◌≤◌, ◌≡◌, refl, true, some, List, [], ◌∷◌}
use structured_chaos.Ecs.Access.{
  SystemAccess, no_access, contains, merge, add_once, add_all_once, add_to, add_all,
}
use structured_chaos.Ecs.Effective.{Event, Setup, Work, effective_access}
use structured_chaos.Ecs.Effective.Growing.{Covers}
use structured_chaos.Ecs.Effective.Reached.{SetOff, effective_access-Covers}

-- Emits event 7.
abbrev pub hunter : SystemAccess
hunter = record no_access { emits = 7 ∷ []; components = record { index = 0; write = true } ∷ [] }

-- Edits component 4.
abbrev pub scorer : SystemAccess
scorer = record no_access {
  modified = 4 ∷ [];
  components = record { index = 4; write = true } ∷ [];
}

-- The hook of component 4.
abbrev pub counter : SystemAccess
counter = record no_access { emits = 7 ∷ []; components = record { index = 9; write = true } ∷ [] }

abbrev pub events : List Event
events = record { tag = 7; listeners = scorer ∷ [] } ∷ []

abbrev setup : Setup
setup = record { events = events; hooks = some (record { component = 4; access = counter } ∷ []) }

loop_taken :
    effective_access setup 10 hunter
    ≡ some (record {
      effective = record hunter {
        components =
            record { index = 0; write = true }
            ∷ record { index = 4; write = true }
            ∷ record { index = 9; write = true }
            ∷ [];
        modified = 4 ∷ [];
      };
      foreign = 4 ∷ [];
      hooked = 4 ∷ [];
      emits = 1;
      modified = 1;
    })
unfolding effective_access merge add_all_once contains add_once add_all add_to
loop_taken = refl

effective_access-Covers_example :
    (least : ℕ) × (w : Work) × ((fuel : ℕ)
      → least ≤ fuel
      → effective_access setup fuel hunter ≡ some w)
    × ((x : SystemAccess) → SetOff setup hunter x → Covers w.effective x)
unfolding contains
effective_access-Covers_example = effective_access-Covers setup hunter (refl, tt)
