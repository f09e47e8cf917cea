-- ===== src/Ecs/Commands/Applying/Order.antt =====
-- `CommandApplier` of scheduler.hpp does the changes of a page as one by one.
use structured_chaos.Prelude.{
  ℕ, ◌≡◌, ◌≢◌, refl, sym, ap, ◌∙◌, subst, true, Bool-cases, inl, inr, List, [], ◌∷◌, length, min,
  All, if◌then◌else◌, arith,
}
use structured_chaos.Ecs.Entity.{index_of, page_of, page_size}
use structured_chaos.Ecs.Commands.{Change, Finish, erases, emplaces, modifies}
use structured_chaos.Ecs.Commands.Applying.{
  Setting, Columns, no_kills, Applying, flush, finish, apply_change, apply_list, forsake,
  apply_page,
}
use structured_chaos.Ecs.Commands.Applying.Spec.{do_finish, do_change, do_all, settled, KillsOk}
use structured_chaos.Ecs.Commands.Applying.Finishing.{
  NoKills, settled_none, flush-NoKills, NoKills-KillsOk, kill-KillsOk, settled-kill, finish_settled,
}

module _ (w : Setting) (number step : ℕ) where
  -- A change of another kind than an erase, after the gathered erases.
  other_settled :
      (f : Finish) (entity column : ℕ) (s : Applying)
      → f ≢ erases
      → KillsOk number s.kills
      → let r =
          (if w.valid entity then finish w number step f entity column (flush s) else flush s) in
        (settled r
          ≡ (if w.valid entity then do_finish w f entity column (settled s) else settled s))
        × KillsOk number r.kills
  unfolding flush
  other_settled f entity column s n ok =
      let free = flush-NoKills s ok in
      let clean : (flush s).columns ≡ settled s = refl in
      let before = settled_none (flush s) free in
      let (c, k) = finish_settled w number step entity column f (flush s) n in
      elim (Bool-cases (w.valid entity)) [
        | inl h ↦
            let free' : NoKills (finish w number step f entity column (flush s)).kills =
              subst NoKills (sym k) free in
            rw (h) (
              settled_none (finish w number step f entity column (flush s)) free'
                  ∙ c
                  ∙ ap (do_finish w f entity column) clean,
              NoKills-KillsOk number (finish w number step f entity column (flush s)).kills free',
            )
        | inr h ↦ rw (h) (before ∙ clean, NoKills-KillsOk number (flush s).kills free)
      ]

  pub change_settled :
      (c : Change) (s : Applying)
      → (w.valid c.entity ≡ true → page_of (index_of c.entity) ≡ number)
      → KillsOk number s.kills
      → (settled (apply_change w number step c s) ≡ do_change w c (settled s))
        × KillsOk number (apply_change w number step c s).kills
  unfolding apply_change do_change
  change_settled c s here ok = by_kind c.finish refl
    where
      by_kind :
          (f : Finish)
          → c.finish ≡ f
          → (settled (apply_change w number step c s) ≡ do_change w c (settled s))
            × KillsOk number (apply_change w number step c s).kills
      by_kind erases e = elim (Bool-cases (w.valid c.entity)) [
        | inl h ↦
            rw (apply_change, do_change, e, h)
              (
                settled-kill w number c.entity c.column s ok (here h),
                kill-KillsOk w number c.entity c.column s ok (here h),
              )
        | inr h ↦ rw (apply_change, do_change, e, h) (refl, ok)
      ]
      by_kind (emplaces r v) e =
          rw (apply_change, do_change, e)
            (other_settled (emplaces r v) c.entity c.column s (λ x. ground arith) ok)
      by_kind (modifies t f) e =
          rw (apply_change, do_change, e)
            (other_settled (modifies t f) c.entity c.column s (λ x. ground arith) ok)

  pub list_settled :
      (cs : List Change) (s : Applying)
      → All (λ c. w.valid c.entity ≡ true → page_of (index_of c.entity) ≡ number) cs
      → KillsOk number s.kills
      → (settled (apply_list w number step cs s) ≡ do_all w cs (settled s))
        × KillsOk number (apply_list w number step cs s).kills
  unfolding apply_list do_all
  list_settled [] s h ok = (refl, ok)
  list_settled (c ∷ cs) s h ok =
      let (e, k) = change_settled c s h.0 ok in
      let (e', k') = list_settled cs (apply_change w number step c s) h.1 k in
      (e' ∙ ap (do_all w cs) e, k')

-- The changes of one page, with the erases that follow each other gathered per column and done
-- together, leave the components, their ticks, the adds with hooks and the components moved out
-- for hooks as the changes done one by one, if the changes of entities that exist are all in that
-- page.
pub apply_page-do_all :
    (w : Setting) (number : ℕ) (changes : List Change) (d : Columns) (counts : ℕ → ℕ → ℕ)
    → All (λ c. w.valid c.entity ≡ true → page_of (index_of c.entity) ≡ number) changes
    → (apply_page w number changes d counts).columns ≡ do_all w changes d
unfolding apply_page flush forsake
apply_page-do_all w number changes d counts h =
    let start : Applying = record {
      columns = d;
      counts = counts;
      kills = no_kills;
      adds = λ _. record { counted = 0; added = 0 };
    } in
    let (e, _) =
      list_settled w number (min (length changes) page_size) changes start h
        (NoKills-KillsOk number no_kills (λ _ _. refl)) in
    e ∙ ap (do_all w changes) (settled_none start (λ _ _. refl))
