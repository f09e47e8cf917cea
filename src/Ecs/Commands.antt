-- ===== src/Ecs/Commands.antt =====
-- `CommandList` of src/sc/ecs/scheduler.hpp: what one thread records during a stage. An entity, a column
-- and a component are numbers, a function of modify is a function of the component.
pub mod Applying
pub mod Recording
pub mod Apply
pub mod Destroying
mod Tests
use structured_chaos.Prelude.{
  ℕ, suc, ◌+◌, ◌-◌, ◌^◌, ◌≡◌, Bool, true, false, Option, none, some, List, [], ◌∷◌, ◌++◌, length,
  ◌==◌, if◌then◌else◌, map,
}
use structured_chaos.Ecs.Entity.{index_of, page_of}

-- The `finish` of a change, with its value: null, finishEmplace or finishModify, where the flag says
-- REPLACE or TRACKED.
pub data Finish : Type 0 where
  erases : Finish
  emplaces : Bool → ℕ → Finish
  modifies : Bool → (ℕ → ℕ) → Finish

pub record Change : Type 0 where
  pub entity : ℕ
  pub column : ℕ
  pub finish : Finish

pub record CommandList : Type 0 where
  pub changes : List Change
  pub page : ℕ
  pub destroyed : List ℕ

abbrev pub no_page : ℕ
no_page = 2 ^ 32 - 1

abbrev pub new_list : CommandList
new_list = record { changes = []; page = no_page; destroyed = [] }

unfoldable pub note : ℕ → CommandList → CommandList
note entity l =
    let page = page_of (index_of entity) in
    if length l.changes == 1
    then record l { page = page }
    else if page == l.page
    then l
    else record l { page = no_page }

abbrev pub push_back : Change → CommandList → CommandList
push_back c l = record l { changes = l.changes ++ (c ∷ []) }

pub pop_back {ℓ} : {A : Type ℓ} → List A → List A
pop_back [] = []
pop_back (x ∷ []) = []
pop_back (x ∷ y ∷ xs) = x ∷ pop_back (y ∷ xs)

-- The list afterwards, and whether the call threw.
pub record Recorded : Type 0 where
  pub list : CommandList
  pub threw : Bool

-- A change that is recorded ahead of its value, which may fail to be made.
unfoldable pub record_with : Change → Bool → CommandList → Recorded
unfolding note pop_back
record_with c made l =
    let pushed = push_back c l in
    if made
    then record { list = note c.entity pushed; threw = false }
    else record { list = record pushed { changes = pop_back pushed.changes }; threw = true }

unfoldable pub erase : ℕ → ℕ → CommandList → CommandList
unfolding note
erase entity column l =
    note entity (push_back (record { entity = entity; column = column; finish = erases }) l)

-- `emplace` and, with the flag, `emplaceOrReplace`; none for a component whose constructor throws.
unfoldable pub emplace : Bool → ℕ → ℕ → Option ℕ → CommandList → Recorded
unfolding record_with note pop_back
emplace replace entity column none l =
    record_with (record { entity = entity; column = column; finish = emplaces replace 0 }) false l
emplace replace entity column (some v) l =
    record_with (record { entity = entity; column = column; finish = emplaces replace v }) true l

-- The flag says whether the column tracks changes.
unfoldable pub modify : Bool → ℕ → ℕ → Option (ℕ → ℕ) → CommandList → Recorded
unfolding record_with note pop_back
modify tracks entity column none l =
    record_with (record { entity = entity; column = column; finish = modifies tracks (λ v. v) })
      false l
modify tracks entity column (some f) l =
    record_with (record { entity = entity; column = column; finish = modifies tracks f }) true l

unfoldable pub destroy : ℕ → CommandList → CommandList
destroy entity l = record l { destroyed = l.destroyed ++ (entity ∷ []) }

abbrev pub clear : CommandList → CommandList
clear l = record l { changes = []; destroyed = [] }

-- Whether all changes of all lists are in one page, or there are none, after those of earlier lists.
unfoldable pub one_page_from : ℕ → List CommandList → Bool
one_page_from page [] = true
one_page_from page (l ∷ ls) =
    let skipped = one_page_from page ls in
    let rest = one_page_from l.page ls in
    if length l.changes == 0
    then skipped
    else if l.page == no_page
    then false
    else if page == no_page
    then rest
    else if l.page == page
    then rest
    else false

abbrev pub one_page : List CommandList → Bool
one_page = one_page_from no_page
