-- ===== src/Ecs/Commands/Tests.antt =====
-- Runs of commands of scheduler.hpp. Entities below 4096 are in page 0, the next ones in page 1.
use structured_chaos.Prelude.{
  ℕ, ◌+◌, ◌^◌, ◌<◌, ◌≡◌, refl, true, false, none, some, List, [], ◌∷◌, All, ◌==◌, ltb,
  if◌then◌else◌, arith,
}
use structured_chaos.Ecs.Entity.{index_of, page_of}
use structured_chaos.Ecs.Commands.{
  Change, CommandList, erases, emplaces, note, record_with, pop_back, erase, emplace, new_list,
  one_page_from, one_page,
}
use structured_chaos.Ecs.Commands.Applying.{
  Setting, Columns, apply_page, apply_list, apply_change, kill, stash, flush, killed, gone, finish,
  reserve, emplace_counted, forsake,
}
use structured_chaos.Ecs.Commands.Applying.Spec.{do_all}
use structured_chaos.Ecs.Commands.Applying.Order.{apply_page-do_all}
use structured_chaos.Ecs.Commands.Applying.Cells.{cell, in_page}
use structured_chaos.Ecs.Commands.Applying.Pages.{IsSorted}
use structured_chaos.Ecs.Commands.Recording.{Noted}
use structured_chaos.Ecs.Commands.Apply.{
  apply_changes, all_changes, page_count, apply_changes-do_all,
}
use structured_chaos.Ecs.Commands.Destroying.{
  run_destroy_hooks, times, OnePerIndex, run_destroy_hooks-Once, run_destroy_hooks-twice,
}

-- Entities up to 9999 exist; removes from column 1 have hooks.
abbrev setting : Setting
setting = record {
  valid = λ e. ltb e 10000;
  add_hooked = λ c. c == 2;
  remove_hooked = λ c. c == 1;
  tracks = λ c. true;
}

abbrev columns : Columns
columns = record {
  table = λ c i. if i == 7 then some 1 else none;
  touched = λ c i. false;
  hooked = [];
  removed = [];
}

abbrev first : CommandList
first = (emplace true 7 1 (some 5) (erase 7 1 (erase 7 1 new_list))).list

abbrev second : CommandList
second = (emplace false 5000 2 (some 6) new_list).list

noted_tests :
    (first.page ≡ 0)
    × (second.page ≡ 1)
    × (one_page (first ∷ []) ≡ true)
    × (one_page (first ∷ second ∷ []) ≡ false)
unfolding emplace record_with erase note one_page_from index_of
noted_tests = (refl, refl, refl, refl)

-- A constructor that throws leaves the list.
thrown_test : emplace false 7 1 none new_list ≡ record { list = new_list; threw = true }
unfolding emplace record_with note pop_back
thrown_test = refl

abbrev changes_of_first : List Change
changes_of_first =
    record { entity = 7; column = 1; finish = erases }
    ∷ record { entity = 7; column = 1; finish = erases }
    ∷ record { entity = 7; column = 1; finish = emplaces true 5 }
    ∷ []

first_changes : first.changes ≡ changes_of_first
unfolding emplace record_with erase note index_of
first_changes = refl

-- The component is moved out once, and then the entity gets another one.
apply_test :
    (cell (apply_page setting 0 changes_of_first columns (λ c p. 1)).columns 1 7 ≡ some 5)
    × ((apply_page setting 0 changes_of_first columns (λ c p. 1)).columns.removed
        ≡ record { entity = 7; column = 1; value = 1 } ∷ [])
unfolding apply_page apply_list apply_change kill stash flush killed gone finish reserve
    emplace_counted forsake index_of
apply_test = (refl, refl)

in_first_page :
    All (λ c. setting.valid c.entity ≡ true → page_of (index_of c.entity) ≡ 0) changes_of_first
unfolding index_of
in_first_page = (λ _. refl, (λ _. refl, (λ _. refl, tt)))

valid_pages : (e : ℕ) → setting.valid e ≡ true → page_of (index_of e) < page_count
unfolding index_of
valid_pages e v = ground arith

both-Noted : All Noted (first ∷ second ∷ [])
unfolding emplace record_with erase note index_of
both-Noted = (λ _. (refl, (refl, (refl, tt))), (λ _. (refl, tt), tt))

both-IsSorted :
    IsSorted setting
      (all_changes (first ∷ second ∷ []))
      (λ p. in_page p (all_changes (first ∷ second ∷ [])))
      (1 ∷ 0 ∷ [])
unfolding emplace record_with erase note index_of
both-IsSorted = record {
  once = (refl, (refl, tt));
  in_order = (refl, (refl, tt));
  every = (λ _. refl, (λ _. refl, (λ _. refl, (λ _. refl, tt))));
}

one_each : OnePerIndex (7 ∷ 9 ∷ 7 ∷ [])
unfolding index_of
one_each a b l m i = ground arith

same_index : index_of (2 ^ 32 + 7) ≡ index_of 7
unfolding index_of
same_index = refl

apply_page-do_all_example :
    (apply_page setting 0 changes_of_first columns (λ c p. 1)).columns
    ≡ do_all setting changes_of_first columns
apply_page-do_all_example =
    apply_page-do_all setting 0 changes_of_first columns (λ c p. 1) in_first_page

apply_changes-do_all_example :
    cell
      (apply_changes setting
        (λ p. in_page p (all_changes (first ∷ second ∷ [])))
        (1 ∷ 0 ∷ [])
        (first ∷ second ∷ [])
        columns
        (λ c p. 1)).columns
      2
      5000
    ≡ cell (do_all setting (all_changes (first ∷ second ∷ [])) columns) 2 5000
apply_changes-do_all_example =
    apply_changes-do_all setting valid_pages (λ p. in_page p (all_changes (first ∷ second ∷ [])))
      (1 ∷ 0 ∷ []) (first ∷ second ∷ []) columns (λ c p. 1) both-Noted both-IsSorted 2 5000

run_destroy_hooks-Once_example :
    times 7 (run_destroy_hooks (λ e. ltb e 100) (7 ∷ 9 ∷ 7 ∷ []))
    ≡ (if ltb 7 100 then if times 7 (7 ∷ 9 ∷ 7 ∷ []) == 0 then 0 else 1 else 0)
run_destroy_hooks-Once_example = run_destroy_hooks-Once (λ e. ltb e 100) (7 ∷ 9 ∷ 7 ∷ []) 7 one_each

run_destroy_hooks-twice_example :
    run_destroy_hooks (λ e. e == 2 ^ 32 + 7) ((2 ^ 32 + 7) ∷ 7 ∷ (2 ^ 32 + 7) ∷ [])
    ≡ (2 ^ 32 + 7) ∷ (2 ^ 32 + 7) ∷ []
run_destroy_hooks-twice_example =
    run_destroy_hooks-twice (λ e. e == 2 ^ 32 + 7) (2 ^ 32 + 7) 7 same_index (λ e. omega arith) refl
      refl
