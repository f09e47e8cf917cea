-- ===== src/Ecs/Planning/Again.antt =====
-- Calls of `stagesFor` of scheduler.hpp that follow one another without a change between them.
use structured_chaos.Prelude.{
  ℕ, ◌≡◌, refl, sym, ◌∙◌, subst, true, false, Bool-cases, inl, inr, Option, Option-cases, none,
  some, List, [], ◌∷◌, if_rule, eq_of_some, arith,
}
use structured_chaos.Ecs.Access.{SystemAccess, no_access, modifies_gotten}
use structured_chaos.Ecs.Effective.{Setup}
use structured_chaos.Ecs.Stages.{stages}
use structured_chaos.Ecs.Planning.{
  System, World, Scheduler, Fault, hooks_edit_gotten, setup_of, address_of, version_of,
  same_address, work_out, effectives, up_to_date, merge_hooks, collect_columns, set_stages,
  stages_for,
}
use structured_chaos.Ecs.Planning.Passing.{
  filled, WorkedOut, stops, passes, work_out_fault, work_out_passes, work_out-WorkedOut,
}

-- The loop over systems that it has been over.
work_out-again :
    (setup : Setup) (fuel : ℕ) (xs ys : List System) (fault : Option Fault)
    → work_out setup fuel xs ≡ some (ys, fault)
    → work_out setup fuel ys ≡ some (ys, fault)
unfolding work_out
work_out-again setup fuel [] ys fault e =
    let same = eq_of_some e in subst (λ p. work_out setup fuel p.0 ≡ some p) same refl
work_out-again setup fuel (x ∷ xs) ys fault e =
    over (λ zs f. work_out-again setup fuel xs zs f) ys fault
      (work_out-WorkedOut setup fuel x xs ys fault e)
  where
    over :
        ((zs : List System) (f : Option Fault)
          → work_out setup fuel xs ≡ some (zs, f)
          → work_out setup fuel zs ≡ some (zs, f))
        → (ys : List System) (fault : Option Fault) → WorkedOut setup fuel x xs ys fault
        → work_out setup fuel ys ≡ some (ys, fault)
    over rec _ _ (stops v f h c) = work_out_fault setup fuel (filled x v) xs v f h c
    over rec _ _ (passes v zs f h c r) =
        work_out_passes setup fuel (filled x v) zs v zs f h c (rec zs f r)

same_address_refl : (a : Option ℕ) → same_address a a ≡ true
same_address_refl none = refl
same_address_refl (some n) = ground arith

module _ (fuel : ℕ) (world : Option World) (s : Scheduler) where
  abbrev Repeats : Scheduler × Option Fault → Type 0
  Repeats p = stages_for fuel world p.0 ≡ some p

  pub stages_for_valid : up_to_date world s ≡ true → stages_for fuel world s ≡ some (s, none)
  unfolding stages_for
  stages_for_valid h = rw (stages_for, h) refl

  pub stages_for_stuck :
      up_to_date world s ≡ false
      → work_out (setup_of world s.events) fuel s.systems ≡ none
      → stages_for fuel world s ≡ none
  unfolding stages_for
  stages_for_stuck old n = rw (stages_for, old, n) refl

  pub stages_for_fault :
      (ys : List System) (fault : Fault)
      → up_to_date world s ≡ false
      → work_out (setup_of world s.events) fuel s.systems ≡ some (ys, some fault)
      → stages_for fuel world s ≡ some (record s { systems = ys; stages_valid = false }, some fault)
  unfolding stages_for
  stages_for_fault ys fault old n = rw (stages_for, old, n) refl

  pub stages_for_set :
      (ys : List System)
      → up_to_date world s ≡ false
      → work_out (setup_of world s.events) fuel s.systems ≡ some (ys, none)
      → stages_for fuel world s ≡ some (set_stages world ys s)
  unfolding stages_for
  stages_for_set ys old n = rw (stages_for, old, n) refl

-- Setting the stages a second time.
set_stages-Repeats :
    (fuel : ℕ) (world : Option World) (s : Scheduler) (ys : List System)
    → work_out (setup_of world s.events) fuel ys ≡ some (ys, none)
    → Repeats fuel world s (set_stages world ys s)
unfolding set_stages
set_stages-Repeats fuel world s ys again =
    let staged = record s { systems = ys; stages = stages (effectives ys); stages_valid = false } in
    let hooks : SystemAccess = elim world [
      | none ↦ no_access
      | some w ↦ merge_hooks no_access w.hooks
    ] in
    let settled = record staged {
      columns = collect_columns hooks.columns ys;
      stages_world = address_of world;
      stages_hook_version = version_of world;
      stages_valid = true;
    } in
    if_rule (Repeats fuel world s) (modifies_gotten hooks) {x = (staged, some hooks_edit_gotten)}
      {y = (settled, none)}
      (λ h. stages_for_set fuel world staged ys refl again ∙ rw (set_stages, h) refl)
      (λ h.
        stages_for_valid fuel world settled
          (rw (same_address_refl (address_of world)) (ground arith)))

-- stagesFor called again with the same world, while nothing else changed, throws the same as the
-- first time or throws nothing as the first time, and leaves the scheduler as the first call left
-- it: no call that threw leaves stages that pass for valid.
pub stages_for-again :
    (fuel : ℕ) (world : Option World) (s s' : Scheduler) (fault : Option Fault)
    → stages_for fuel world s ≡ some (s', fault)
    → stages_for fuel world s' ≡ some (s', fault)
stages_for-again fuel world s s' fault e = elim (Bool-cases (up_to_date world s)) [
  | inl h ↦
      taken (eq_of_some (sym (stages_for_valid fuel world s h) ∙ e))
        (stages_for_valid fuel world s h)
  | inr h ↦ elim (Option-cases (work_out (setup_of world s.events) fuel s.systems)) [
    | inl n ↦ let bad = sym (stages_for_stuck fuel world s h n) ∙ e in absurd (ground arith)
    | inr ((ys, none), n) ↦ taken (eq_of_some (sym (stages_for_set fuel world s ys h n) ∙ e)) (
        set_stages-Repeats fuel world s ys
          (work_out-again (setup_of world s.events) fuel s.systems ys none n))
    | inr ((ys, some f), n) ↦
        let failed = record s { systems = ys; stages_valid = false } in
        taken (eq_of_some (sym (stages_for_fault fuel world s ys f h n) ∙ e)) (
          stages_for_fault fuel world failed ys f refl
            (work_out-again (setup_of world s.events) fuel s.systems ys (some f) n))
  ]
]
  where
    taken :
        {p : Scheduler × Option Fault}
        → p ≡ (s', fault)
        → Repeats fuel world s p
        → Repeats fuel world s (s', fault)
    taken same r = subst (Repeats fuel world s) same r
