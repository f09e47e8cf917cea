-- ===== src/Ecs/Commands/Applying/Spec.antt =====
-- Changes of scheduler.hpp done one by one, each at once, as what `CommandApplier` is to do.
use structured_chaos.Prelude.{ℕ, ◌≡◌, true, none, some, List, [], ◌∷◌, ◌++◌, if◌then◌else◌, write}
use structured_chaos.Ecs.Entity.{index_of, page_of}
use structured_chaos.Ecs.Commands.{Change, Finish, erases, emplaces, modifies}
use structured_chaos.Ecs.Commands.Applying.{
  Setting, Columns, KillPage, Applying, slot_of, word_of, set_at, touch, without,
}

module _ (w : Setting) where
  unfoldable pub do_finish : Finish → ℕ → ℕ → Columns → Columns
  do_finish erases entity column d =
      let index = index_of entity in
      elim (d.table column index) [
        | none ↦ d
        | some v ↦
            let less = record d { table = set_at d.table column index none } in
            if w.remove_hooked column
            then record less {
              removed = d.removed ++ (record { entity = entity; column = column; value = v } ∷ []);
            }
            else less
      ]
  do_finish (emplaces replace v) entity column d =
      let index = index_of entity in
      let made = touch w column index (record d { table = set_at d.table column index (some v) }) in
      elim (d.table column index) [
        | none ↦
            if w.add_hooked column
            then record made {
              hooked = made.hooked ++ (record { entity = entity; column = column } ∷ []);
            }
            else made
        | some old ↦ if replace then made else d
      ]
  do_finish (modifies tracked f) entity column d =
      let index = index_of entity in
      elim (d.table column index) [
        | none ↦ d
        | some v ↦
            let changed = record d { table = set_at d.table column index (some (f v)) } in
            if tracked then touch w column index changed else changed
      ]

  unfoldable pub do_change : Change → Columns → Columns
  unfolding do_finish
  do_change c d = if w.valid c.entity then do_finish c.finish c.entity c.column d else d

  unfoldable pub do_all : List Change → Columns → Columns
  unfolding do_change do_finish
  do_all [] d = d
  do_all (c ∷ cs) d = do_all cs (do_change c d)

-- The columns once the gathered erases are done.
abbrev pub settled : Applying → Columns
settled s = record s.columns {
  table = λ column index. without (s.kills column) index (s.columns.table column index);
}

-- All gathered erases are of one page, in words that were noted.
pub record KillsOk (number : ℕ) (kills : ℕ → KillPage) : Type 0 where
  pub noted :
      (column slot : ℕ)
      → (kills column).bits slot ≡ true
      → (kills column).touched (word_of slot) ≡ true
  pub same_page :
      (column slot : ℕ) → (kills column).bits slot ≡ true → (kills column).number ≡ number

-- The page of gathered erases with one more.
abbrev pub more_kills : ℕ → KillPage → KillPage
more_kills index page = record {
  number = page_of index;
  bits = write page.bits (slot_of index) true;
  touched = write page.touched (word_of (slot_of index)) true;
}
