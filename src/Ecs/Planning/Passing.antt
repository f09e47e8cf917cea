-- ===== src/Ecs/Planning/Passing.antt =====
-- What the loop over the systems in `stagesFor` of scheduler.hpp gives.
use structured_chaos.Prelude.{
  ℕ, zero, suc, ◌≡◌, refl, sym, ap, ◌∙◌, subst, inl, inr, Option, Option-cases, none, some, List,
  [], ◌∷◌, get_elem?, eq_of_some, arith,
}
use structured_chaos.Ecs.Effective.{Setup, Work, effective_access}
use structured_chaos.Ecs.Planning.{System, Fault, check_system, work_out}

-- A system with what it uses filled in.
abbrev pub filled : System → Work → System
filled y v = record y { effective = v.effective }

module _ (setup : Setup) (fuel : ℕ) (y : System) (ys : List System) where
  -- One system of the loop.
  pub work_out-effective_access :
      effective_access setup fuel y.access ≡ none → work_out setup fuel (y ∷ ys) ≡ none
  unfolding work_out
  work_out-effective_access e = rw (work_out, e) refl

  pub work_out_fault :
      (v : Work) (fault : Fault)
      → effective_access setup fuel y.access ≡ some v
      → check_system (filled y v) v.foreign ≡ some fault
      → work_out setup fuel (y ∷ ys) ≡ some (filled y v ∷ ys, some fault)
  unfolding work_out
  work_out_fault v fault e c = rw (work_out, e, c) refl

  pub work_out_stuck :
      (v : Work)
      → effective_access setup fuel y.access ≡ some v
      → check_system (filled y v) v.foreign ≡ none
      → work_out setup fuel ys ≡ none
      → work_out setup fuel (y ∷ ys) ≡ none
  unfolding work_out
  work_out_stuck v e c r = rw (work_out, e, c, r) refl

  pub work_out_passes :
      (v : Work) (ys' : List System) (fault : Option Fault)
      → effective_access setup fuel y.access ≡ some v
      → check_system (filled y v) v.foreign ≡ none
      → work_out setup fuel ys ≡ some (ys', fault)
      → work_out setup fuel (y ∷ ys) ≡ some (filled y v ∷ ys', fault)
  unfolding work_out
  work_out_passes v ys' fault e c r = rw (work_out, e, c, r) refl

-- How the loop goes on from a system.
pub data WorkedOut (setup : Setup) (fuel : ℕ) (y : System) (ys : List System)
    : List System → Option Fault → Type 0 where
  stops :
      (v : Work) (fault : Fault)
      → effective_access setup fuel y.access ≡ some v
      → check_system (filled y v) v.foreign ≡ some fault
      → WorkedOut setup fuel y ys (filled y v ∷ ys) (some fault)
  passes :
      (v : Work) (ys' : List System) (fault : Option Fault)
      → effective_access setup fuel y.access ≡ some v
      → check_system (filled y v) v.foreign ≡ none
      → work_out setup fuel ys ≡ some (ys', fault)
      → WorkedOut setup fuel y ys (filled y v ∷ ys') fault

pub work_out-WorkedOut :
    (setup : Setup) (fuel : ℕ) (y : System) (ys zs : List System) (fault : Option Fault)
    → work_out setup fuel (y ∷ ys) ≡ some (zs, fault)
    → WorkedOut setup fuel y ys zs fault
work_out-WorkedOut setup fuel y ys zs fault e =
    elim (Option-cases (effective_access setup fuel y.access)) [
      | inl n ↦
          let bad = sym (work_out-effective_access setup fuel y ys n) ∙ e in absurd (ground arith)
      | inr (v, h) ↦ elim (Option-cases (check_system (filled y v) v.foreign)) [
        | inr (f, c) ↦
            given (eq_of_some (sym (work_out_fault setup fuel y ys v f h c) ∙ e)) (stops v f h c)
        | inl c ↦ elim (Option-cases (work_out setup fuel ys)) [
          | inl r ↦
              let bad = sym (work_out_stuck setup fuel y ys v h c r) ∙ e in absurd (ground arith)
          | inr ((ys', f), r) ↦
              given (eq_of_some (sym (work_out_passes setup fuel y ys v ys' f h c r) ∙ e))
                (passes v ys' f h c r)
        ]
      ]
    ]
  where
    given :
        {p q : List System × Option Fault}
        → p ≡ q
        → WorkedOut setup fuel y ys p.0 p.1
        → WorkedOut setup fuel y ys q.0 q.1
    given same w = subst (λ p. WorkedOut setup fuel y ys p.0 p.1) same w

passed :
    (setup : Setup) (fuel : ℕ) (y : System) (ys zs : List System)
    → WorkedOut setup fuel y ys zs none
    → (v : Work) × (ys' : List System) × (effective_access setup fuel y.access ≡ some v)
      × (work_out setup fuel ys ≡ some (ys', none))
      × (zs ≡ filled y v ∷ ys')
passed setup fuel y ys _ (passes v ys' _ h c r) = (v, ys', h, r, refl)

-- If no system is at fault, each has what `effectiveAccess` gives for it.
pub work_out-get_elem? :
    (setup : Setup) (fuel : ℕ) (ys zs : List System) (i : ℕ) (y : System)
    → work_out setup fuel ys ≡ some (zs, none)
    → get_elem? ys i ≡ some y
    → (v : Work) × (effective_access setup fuel y.access ≡ some v)
      × (get_elem? zs i ≡ some (filled y v))
work_out-get_elem? setup fuel [] zs i y e at = absurd (ground arith)
work_out-get_elem? setup fuel (x ∷ ys) zs zero y e at =
    let (v, ys', h, r, zs_same) =
      passed setup fuel x ys zs (work_out-WorkedOut setup fuel x ys zs none e) in
    let same = eq_of_some at in
    (
      v,
      ap (λ z. effective_access setup fuel z.access) (sym same) ∙ h,
      ap (λ l. get_elem? l 0) zs_same ∙ ap (λ z. some (filled z v)) same,
    )
work_out-get_elem? setup fuel (x ∷ ys) zs (suc i) y e at =
    let (v, ys', h, r, zs_same) =
      passed setup fuel x ys zs (work_out-WorkedOut setup fuel x ys zs none e) in
    let (w, h', at') = work_out-get_elem? setup fuel ys ys' i y r at in
    (w, h', ap (λ l. get_elem? l (suc i)) zs_same ∙ at')
