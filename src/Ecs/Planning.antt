-- ===== src/Ecs/Planning.antt =====
-- `Scheduler::stagesFor` of src/sc/ecs/scheduler.hpp whole: what it keeps from the last call, the errors it
-- throws, the stages and the columns of its systems.
pub mod Passing
pub mod Together
pub mod Again
pub mod Returns
mod Tests
use structured_chaos.Prelude.{
  ℕ, Bool, true, false, ◌&&◌, not, Option, none, some, List, [], ◌∷◌, map, ◌==◌, if◌then◌else◌,
}
use structured_chaos.Ecs.Access.{
  SystemAccess, no_access, merge, any_in, modifies_gotten, writes_global, writes_cache,
  add_all_once,
}
use structured_chaos.Ecs.Effective.{Event, Hook, Setup, Work, effective_access}
use structured_chaos.Ecs.Stages.{stages}

-- `Scheduler::System`, without what it runs.
pub record System : Type 0 where
  pub access : SystemAccess
  pub effective : SystemAccess
  pub loop : Bool

-- What is read of a `World`, and its address.
pub record World : Type 0 where
  pub address : ℕ
  pub hook_version : ℕ
  pub hooks : List Hook

-- What `stagesFor` reads and writes of the scheduler, with the names of its members.
pub record Scheduler : Type 0 where
  pub systems : List System
  pub events : List Event
  pub stages : List (List ℕ)
  pub columns : List ℕ
  pub stages_world : Option ℕ
  pub stages_hook_version : ℕ
  pub stages_valid : Bool

-- The errors of `stagesFor`, each a `std::logic_error`.
pub data Fault : Type 0 where
  local_edit_elsewhere : Fault
  edits_gotten : Fault
  loop_writes_global : Fault
  loop_writes_cache : Fault
  hooks_edit_gotten : Fault

abbrev pub same_address : Option ℕ → Option ℕ → Bool
same_address none none = true
same_address (some m) (some n) = m == n
same_address none (some n) = false
same_address (some m) none = false

abbrev pub address_of : Option World → Option ℕ
address_of none = none
address_of (some w) = some w.address

abbrev pub version_of : Option World → ℕ
version_of none = 0
version_of (some w) = w.hook_version

abbrev pub setup_of : Option World → List Event → Setup
setup_of none events = record { events = events; hooks = none }
setup_of (some w) events = record { events = events; hooks = some w.hooks }

-- What is checked of one system; the second argument is `foreign`.
unfoldable pub check_system : System → List ℕ → Option Fault
check_system y foreign =
    if any_in y.access.local_edited foreign
    then some local_edit_elsewhere
    else if modifies_gotten y.effective
    then some edits_gotten
    else if y.loop && writes_global y.effective
    then some loop_writes_global
    else if y.loop && writes_cache y.effective
    then some loop_writes_cache
    else none

-- The loop over the systems, up to the first that is at fault.
unfoldable pub work_out : Setup → ℕ → List System → Option (List System × Option Fault)
unfolding effective_access check_system
work_out setup fuel [] = some ([], none)
work_out setup fuel (y ∷ ys) =
    let rest = work_out setup fuel ys in
    elim (effective_access setup fuel y.access) [
      | none ↦ none
      | some v ↦
          let y' = record y { effective = v.effective } in
          elim (check_system y' v.foreign) [
            | some fault ↦ some (y' ∷ ys, some fault)
            | none ↦ elim rest [ none ↦ none | some (ys', fault) ↦ some (y' ∷ ys', fault) ]
          ]
    ]

-- The loop over the hooks that merges them.
unfoldable pub merge_hooks : SystemAccess → List Hook → SystemAccess
unfolding merge
merge_hooks a [] = a
merge_hooks a (h ∷ hs) = merge_hooks (merge a h.access) hs

-- The loop that adds the columns of the systems.
unfoldable pub collect_columns : List ℕ → List System → List ℕ
unfolding add_all_once
collect_columns columns [] = columns
collect_columns columns (y ∷ ys) = collect_columns (add_all_once columns y.effective.columns) ys

abbrev pub effectives : List System → List SystemAccess
effectives systems = map (λ y. y.effective) systems

-- Whether the stages of the last call still hold.
abbrev pub up_to_date : Option World → Scheduler → Bool
up_to_date world s =
    s.stages_valid
    && same_address (address_of world) s.stages_world
    && version_of world == s.stages_hook_version

-- What follows the loop over the systems if none is at fault.
unfoldable pub set_stages : Option World → List System → Scheduler → Scheduler × Option Fault
unfolding merge_hooks collect_columns stages
set_stages world systems s =
    let staged = record s {
      systems = systems;
      stages = stages (effectives systems);
      stages_valid = false;
    } in
    let hooks : SystemAccess = elim world [
      | none ↦ no_access
      | some w ↦ merge_hooks no_access w.hooks
    ] in
    if modifies_gotten hooks then (staged, some hooks_edit_gotten) else (
      record staged {
        columns = collect_columns hooks.columns systems;
        stages_world = address_of world;
        stages_hook_version = version_of world;
        stages_valid = true;
      },
      none,
    )

-- `stagesFor`: the scheduler after it, and what it throws.
unfoldable pub stages_for : ℕ → Option World → Scheduler → Option (Scheduler × Option Fault)
unfolding work_out set_stages
stages_for fuel world s =
    if up_to_date world s
    then some (s, none)
    else elim (work_out (setup_of world s.events) fuel s.systems) [
      | none ↦ none
      | some (systems, some fault) ↦
          some (record s { systems = systems; stages_valid = false }, some fault)
      | some (systems, none) ↦ some (set_stages world systems s)
    ]
