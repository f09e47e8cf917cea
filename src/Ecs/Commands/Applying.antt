-- ===== src/Ecs/Commands/Applying.antt =====
-- `CommandApplier` of src/sc/ecs/scheduler.hpp on one thread: applyList, applyPage, applyChange, kill and
-- flush, with `PageAdds`. Columns are tables from an index to the component there; their pages are the
-- counts of them. An index is that of a page, so a column has a header for it once it counts there.
pub mod Spec
pub mod Killing
pub mod Finishing
pub mod Order
pub mod Cells
pub mod Pages
use structured_chaos.Prelude.{
  ℕ, suc, ◌+◌, ◌-◌, ◌*◌, ◌/◌, ◌%◌, ◌^◌, ◌≡◌, Bool, true, false, not, ◌&&◌, Option, none, some, List,
  [], ◌∷◌, ◌++◌, length, ◌==◌, if◌then◌else◌, min, write, total,
}
use structured_chaos.Ecs.Entity.{index_of, page_of, page_size}
use structured_chaos.Ecs.Commands.{Change, Finish, erases, emplaces, modifies}

-- What changes do not change: the entities that exist, and the columns with hooks.
pub record Setting : Type 0 where
  pub valid : ℕ → Bool
  pub add_hooked : ℕ → Bool
  pub remove_hooked : ℕ → Bool
  pub tracks : ℕ → Bool

-- A component that was moved out for the onRemove hooks.
pub record Removed : Type 0 where
  pub entity : ℕ
  pub column : ℕ
  pub value : ℕ

-- An add whose onAdd hooks are to run.
pub record Hooked : Type 0 where
  pub entity : ℕ
  pub column : ℕ

-- The columns: the components by column and index, whether the ticks of 64 indices moved, and what is left
-- for the hooks.
pub record Columns : Type 0 where
  pub table : ℕ → ℕ → Option ℕ
  pub touched : ℕ → ℕ → Bool
  pub hooked : List Hooked
  pub removed : List Removed

-- The erases of a page in one column, with its words slot by slot.
pub record KillPage : Type 0 where
  pub number : ℕ
  pub bits : ℕ → Bool
  pub touched : ℕ → Bool

abbrev pub no_kills : ℕ → KillPage
no_kills column = record { number = 0; bits = λ _. false; touched = λ _. false }

-- The adds that were counted ahead in one column, and those done.
pub record Counted : Type 0 where
  pub counted : ℕ
  pub added : ℕ

-- The state of one thread: `adds` is `m_counted`, with nothing counted for a column that is not in it.
pub record Applying : Type 0 where
  pub columns : Columns
  pub counts : ℕ → ℕ → ℕ
  pub kills : ℕ → KillPage
  pub adds : ℕ → Counted

abbrev pub slot_of : ℕ → ℕ
slot_of index = index % 2 ^ 12

abbrev pub word_of : ℕ → ℕ
word_of slot = slot / 64

abbrev pub set_at {ℓ} : {A : Type ℓ} → (ℕ → ℕ → A) → ℕ → ℕ → A → ℕ → ℕ → A
set_at f column index a = write f column (write (f column) index a)

-- 1 for a component that is there.
abbrev pub present : Option ℕ → ℕ
present none = 0
present (some v) = 1

abbrev pub has : Option ℕ → Bool
has none = false
has (some v) = true

abbrev pub columns_with : Columns → Applying → Applying
columns_with d s = record s { columns = d }

-- Whether a gathered erase is for the index.
unfoldable pub killed : KillPage → ℕ → Bool
killed k index =
    (page_of index == k.number) && k.touched (word_of (slot_of index)) && k.bits (slot_of index)

-- What `eraseAlone` leaves of a component.
abbrev pub without : KillPage → ℕ → Option ℕ → Option ℕ
without k index o = if killed k index then none else o

-- How many components of a page go.
unfoldable pub gone : KillPage → (ℕ → Option ℕ) → ℕ
unfolding killed
gone k column =
    total
      (λ slot.
        if killed k (k.number * page_size + slot)
        then present (column (k.number * page_size + slot))
        else 0)
      page_size (λ slot. slot)

-- `flush`: a column without gathered erases loses nothing.
unfoldable pub flush : Applying → Applying
unfolding killed gone
flush s = record s {
  columns = record s.columns {
    table = λ column index. without (s.kills column) index (s.columns.table column index);
  };
  counts = λ column.
      write (s.counts column) (s.kills column).number
        (s.counts column (s.kills column).number - gone (s.kills column) (s.columns.table column));
  kills = λ column. record (s.kills column) {
    bits = λ slot.
        if (s.kills column).touched (word_of slot) then false else (s.kills column).bits slot;
    touched = λ word. false;
  };
}

-- `~PageAdds`
unfoldable pub forsake : ℕ → Applying → Applying
forsake number s = record s {
  counts = λ column.
      write (s.counts column) number
        (s.counts column number - ((s.adds column).counted - (s.adds column).added));
  adds = λ _. record { counted = 0; added = 0 };
}

-- `stash` of a column: only for an entity that has the component.
unfoldable pub stash : ℕ → ℕ → Columns → Columns
stash entity column d = elim (d.table column (index_of entity)) [
  | none ↦ d
  | some v ↦ record d {
    removed = d.removed ++ (record { entity = entity; column = column; value = v } ∷ []);
  }
]

-- `PageAdds::reserve` and `occupy`
unfoldable pub reserve : ℕ → ℕ → ℕ → Applying → Applying
reserve number step column s =
    let found = s.adds column in
    if found.added == found.counted
    then record s {
      counts =
          write s.counts column (write (s.counts column) number (s.counts column number + step));
      adds = write s.adds column (record found { counted = found.counted + step });
    }
    else s

module _ (w : Setting) where
  -- `touch` of a column: one tick for each 64 indices
  abbrev pub touch : ℕ → ℕ → Columns → Columns
  touch column index d =
      if w.tracks column
      then record d { touched = set_at d.touched column (index / 64) true }
      else d

  -- `kill`
  unfoldable pub kill : ℕ → ℕ → Applying → Applying
  unfolding stash
  kill entity column s =
      let index = index_of entity in
      let slot = slot_of index in
      let page = s.kills column in
      let stashed =
        if w.remove_hooked column && not (page.bits slot)
        then stash entity column s.columns
        else s.columns in
      record s {
        columns = stashed;
        kills = write s.kills column (record {
          number = page_of index;
          bits = write page.bits slot true;
          touched = write page.touched (word_of slot) true;
        });
      }

  -- `emplaceCounted`, and what finishEmplace does with its answer.
  unfoldable pub emplace_counted : ℕ → ℕ → ℕ → Applying → Applying
  emplace_counted entity column v s =
      let index = index_of entity in
      let made =
        touch column index
          (record s.columns { table = set_at s.columns.table column index (some v) }) in
      elim (s.columns.table column index) [
        | some old ↦ s
        | none ↦ record s {
          columns =
              if w.add_hooked column
              then record made {
                hooked = made.hooked ++ (record { entity = entity; column = column } ∷ []);
              }
              else made;
          adds = write s.adds column (record (s.adds column) { added = (s.adds column).added + 1 });
        }
      ]

  module _ (number step : ℕ) where
    -- `finishEmplace` and `finishModify` of an entity that exists.
    unfoldable pub finish : Finish → ℕ → ℕ → Applying → Applying
    unfolding reserve emplace_counted
    finish erases entity column s = s
    finish (emplaces false v) entity column s =
        emplace_counted entity column v (reserve number step column s)
    finish (emplaces true v) entity column s =
        if has (s.columns.table column (index_of entity))
        then columns_with
            (touch column (index_of entity) (record s.columns {
              table = set_at s.columns.table column (index_of entity) (some v);
            }))
            s
        else emplace_counted entity column v (reserve number step column s)
    finish (modifies tracked f) entity column s = elim (s.columns.table column (index_of entity)) [
      | none ↦ s
      | some v ↦
          let changed = record s.columns {
            table = set_at s.columns.table column (index_of entity) (some (f v));
          } in
          columns_with (if tracked then touch column (index_of entity) changed else changed) s
    ]

    unfoldable pub apply_change : Change → Applying → Applying
    unfolding kill stash flush killed gone finish reserve emplace_counted
    apply_change c s = elim c.finish [
      | erases ↦ if w.valid c.entity then kill c.entity c.column s else s
      | emplaces replace v ↦
          if w.valid c.entity
          then finish (emplaces replace v) c.entity c.column (flush s)
          else flush s
      | modifies tracked f ↦
          if w.valid c.entity
          then finish (modifies tracked f) c.entity c.column (flush s)
          else flush s
    ]

    -- `applyList`
    unfoldable pub apply_list : List Change → Applying → Applying
    unfolding apply_change kill stash flush killed gone finish reserve emplace_counted
    apply_list [] s = s
    apply_list (c ∷ cs) s = apply_list cs (apply_change c s)

  -- `applyPage`, which also is `applyInOrder` with the changes of all lists.
  unfoldable pub apply_page : ℕ → List Change → Columns → (ℕ → ℕ → ℕ) → Applying
  unfolding apply_list apply_change kill stash flush killed gone finish reserve emplace_counted
      forsake
  apply_page number changes d counts = forsake number (
      flush (
        apply_list number (min (length changes) page_size) changes (record {
          columns = d;
          counts = counts;
          kills = no_kills;
          adds = λ _. record { counted = 0; added = 0 };
        })))
