-- ===== src/Ecs/Effective.antt =====
-- `Scheduler::effectiveAccess` of src/sc/ecs/scheduler.hpp: what a system uses with what the listeners of
-- its events and the hooks of the components it edits use, and those that they set off.
pub mod Growing
pub mod Pending
pub mod Rounds
pub mod Edits
pub mod Closing
pub mod Reached
pub mod Tests
use structured_chaos.Prelude.{
  ℕ, zero, suc, ◌+◌, ◌≡◌, Bool, true, false, Option, none, some, List, [], ◌∷◌, ◌++◌, length,
  get_elem?, ltb, ◌==◌, if◌then◌else◌,
}
use structured_chaos.Ecs.Access.{SystemAccess, contains, merge}

-- `EventListeners`, with what each listener uses.
pub record Event : Type 0 where
  pub tag : ℕ
  pub listeners : List SystemAccess

-- `HookAccess`
pub record Hook : Type 0 where
  pub component : ℕ
  pub access : SystemAccess

-- The events of the scheduler, and the hooks of the world if there is one.
pub record Setup : Type 0 where
  pub events : List Event
  pub hooks : Option (List Hook)

-- The variables of `effectiveAccess`; `emits` and `modified` are its two counters.
pub record Work : Type 0 where
  pub effective : SystemAccess
  pub foreign : List ℕ
  pub hooked : List ℕ
  pub emits : ℕ
  pub modified : ℕ

-- `take`
unfoldable pub take_access : SystemAccess → Work → Work
take_access other v = record v {
  effective = merge v.effective other;
  foreign = v.foreign ++ other.modified;
}

unfoldable pub take_all : List SystemAccess → Work → Work
unfolding take_access
take_all [] v = v
take_all (a ∷ accesses) v = take_all accesses (take_access a v)

-- The listeners of the events with a tag.
unfoldable pub listeners_of : ℕ → List Event → List SystemAccess
listeners_of tag [] = []
listeners_of tag (e ∷ es) =
    let rest = listeners_of tag es in if e.tag == tag then e.listeners ++ rest else rest

unfoldable pub hooks_of : ℕ → List Hook → List SystemAccess
hooks_of component [] = []
hooks_of component (h ∷ hs) =
    let rest = hooks_of component hs in if h.component == component then h.access ∷ rest else rest

-- The body of the loop over `emits`, and its counter.
unfoldable pub take_emit : Setup → ℕ → Work → Work
unfolding take_all take_access listeners_of
take_emit s tag v =
    let taken = take_all (listeners_of tag s.events) v in record taken { emits = taken.emits + 1 }

-- The body of the loop over `modified`, and its counter.
unfoldable pub take_modified : Setup → ℕ → Work → Work
unfolding take_all take_access hooks_of
take_modified s component v = elim s.hooks [
  | none ↦ record v { modified = v.modified + 1 }
  | some hooks ↦
      let taken =
        take_all (hooks_of component hooks) (record v { hooked = v.hooked ++ (component ∷ []) }) in
      if contains component v.hooked
      then record v { modified = v.modified + 1 }
      else record taken { modified = taken.modified + 1 }
]

-- Which of the two inner loops runs.
pub data Phase : Type 0 where
  emitting : Phase
  modifying : Phase

-- The loops, for so many steps; a step is one round of an inner loop or the end of one.
unfoldable pub run : Setup → ℕ → Phase → Work → Option Work
unfolding take_emit take_modified take_all take_access listeners_of hooks_of
run s zero phase v = none
run s (suc fuel) emitting v = elim (get_elem? v.effective.emits v.emits) [
  | some tag ↦ run s fuel emitting (take_emit s tag v)
  | none ↦ run s fuel modifying v
]
run s (suc fuel) modifying v = elim (get_elem? v.effective.modified v.modified) [
  | some component ↦ run s fuel modifying (take_modified s component v)
  | none ↦ if ltb v.emits (length v.effective.emits) then run s fuel emitting v else some v
]

abbrev pub start : SystemAccess → Work
start own = record { effective = own; foreign = []; hooked = []; emits = 0; modified = 0 }

-- `effectiveAccess`, with what it adds to foreign.
unfoldable pub effective_access : Setup → ℕ → SystemAccess → Option Work
unfolding run take_emit take_modified take_all take_access listeners_of hooks_of
effective_access s fuel own = run s fuel emitting (start own)
