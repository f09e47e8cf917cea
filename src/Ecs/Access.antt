-- ===== src/Ecs/Access.antt =====
-- `SystemAccess` of src/sc/ecs/scheduler.hpp: what a system, a listener or a hook reads and writes. Tags
-- of caches and events are addresses, and here numbers; a `ColumnMaker` is its `index`.
pub mod Uses
pub mod Conflicts
use structured_chaos.Prelude.{
  ℕ, Bool, true, false, ◌&&◌, ◌||◌, List, [], ◌∷◌, ◌++◌, ◌==◌, if◌then◌else◌,
}

-- `Component` and `Cache`: an index or a tag, and whether it is written.
pub record Access : Type 0 where
  pub index : ℕ
  pub write : Bool

-- `SystemAccess`
pub record SystemAccess : Type 0 where
  pub components : List Access
  pub globals : List Access
  pub caches : List Access
  pub exclusive : Bool
  pub commands : Bool
  pub emits : List ℕ
  pub modified : List ℕ
  pub gotten : List ℕ
  pub local_edited : List ℕ
  pub columns : List ℕ

abbrev pub no_access : SystemAccess
no_access = record {
  components = [];
  globals = [];
  caches = [];
  exclusive = false;
  commands = false;
  emits = [];
  modified = [];
  gotten = [];
  local_edited = [];
  columns = [];
}

-- `std::ranges::find(…) != end()`
unfoldable pub contains : ℕ → List ℕ → Bool
contains n [] = false
contains n (m ∷ ms) = if m == n then true else contains n ms

-- `std::ranges::any_of(…, &Component::write)`
unfoldable pub any_write : List Access → Bool
any_write [] = false
any_write (a ∷ rest) = a.write || any_write rest

-- `addTo`, and the body of `addCache`
unfoldable pub add_to : List Access → ℕ → Bool → List Access
add_to [] index write = record { index = index; write = write } ∷ []
add_to (a ∷ rest) index write =
    if a.index == index
    then record a { write = a.write || write } ∷ rest
    else a ∷ add_to rest index write

-- `addEmit` and `addColumn`
unfoldable pub add_once : List ℕ → ℕ → List ℕ
add_once ns n = if contains n ns then ns else ns ++ (n ∷ [])

-- `add`
unfoldable pub add : ℕ → Bool → SystemAccess → SystemAccess
add index write a = record a { components = add_to a.components index write }

-- The loops of `merge`.
unfoldable pub add_all : List Access → List Access → List Access
add_all mine [] = mine
add_all mine (a ∷ rest) = add_all (add_to mine a.index a.write) rest

unfoldable pub add_all_once : List ℕ → List ℕ → List ℕ
add_all_once mine [] = mine
add_all_once mine (n ∷ ns) = add_all_once (add_once mine n) ns

-- `merge`
unfoldable pub merge : SystemAccess → SystemAccess → SystemAccess
merge a other = record {
  components = add_all a.components other.components;
  globals = add_all a.globals other.globals;
  caches = add_all a.caches other.caches;
  exclusive = a.exclusive || other.exclusive;
  commands = a.commands || other.commands;
  emits = add_all_once a.emits other.emits;
  modified = a.modified ++ other.modified;
  gotten = a.gotten ++ other.gotten;
  local_edited = a.local_edited;
  columns = add_all_once a.columns other.columns;
}

-- `modifiesGotten`
unfoldable pub any_in : List ℕ → List ℕ → Bool
any_in [] gotten = false
any_in (n ∷ ns) gotten = contains n gotten || any_in ns gotten

unfoldable pub modifies_gotten : SystemAccess → Bool
modifies_gotten a = any_in a.modified a.gotten

-- `writesGlobal` and `writesCache`
unfoldable pub writes_global : SystemAccess → Bool
writes_global a = any_write a.globals

unfoldable pub writes_cache : SystemAccess → Bool
writes_cache a = any_write a.caches

-- The inner loop of `overlap` and of `overlapCaches`.
unfoldable pub meets : Access → List Access → Bool
meets one [] = false
meets one (other ∷ theirs) =
    if (one.index == other.index) && (one.write || other.write) then true else meets one theirs

-- `overlap` and `overlapCaches`
unfoldable pub overlap : List Access → List Access → Bool
overlap [] theirs = false
overlap (one ∷ mine) theirs = if meets one theirs then true else overlap mine theirs

-- `conflictsWith`
unfoldable pub conflicts_with : SystemAccess → SystemAccess → Bool
conflicts_with a other =
    a.exclusive
    || other.exclusive
    || overlap a.components other.components
    || overlap a.globals other.globals
    || overlap a.caches other.caches
