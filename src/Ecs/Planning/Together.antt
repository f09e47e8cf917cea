-- ===== src/Ecs/Planning/Together.antt =====
-- Systems in one stage, with all that they set off, after `stagesFor` of scheduler.hpp.
use structured_chaos.Prelude.{
  ℕ, ◌≡◌, ◌≢◌, refl, sym, ap, ◌∙◌, true, false, Bool-cases, inl, inr, Option, Option-cases, none,
  some, List, get_elem?, get_elem?-map, eq_of_some, arith,
}
use structured_chaos.Ecs.Access.{SystemAccess, contains, conflicts_with}
use structured_chaos.Ecs.Access.Conflicts.{conflicts_with_comm}
use structured_chaos.Ecs.Effective.Growing.{Covers, NoDup}
use structured_chaos.Ecs.Effective.Reached.{SetOff, given-Covers}
use structured_chaos.Ecs.Stages.{stages}
use structured_chaos.Ecs.Stages.Independent.{same_stage_free}
use structured_chaos.Ecs.Planning.{
  System, World, Scheduler, setup_of, work_out, effectives, up_to_date, set_stages, stages_for,
}
use structured_chaos.Ecs.Planning.Passing.{work_out-get_elem?}

-- Stages are set for the systems as the loop leaves them.
set_stages-stages :
    (world : Option World) (ys : List System) (s : Scheduler)
    → (set_stages world ys s).0.stages ≡ stages (effectives ys)
unfolding set_stages
set_stages-stages world ys s = grind arith

abbrev Settled : ℕ → Option World → Scheduler → Scheduler → Type 0
Settled fuel world s s' =
    (ys : List System) × (work_out (setup_of world s.events) fuel s.systems ≡ some (ys, none))
    × (s'.stages ≡ stages (effectives ys))

-- What a call that throws nothing has done, if it did anything.
stages_for-Settled :
    (fuel : ℕ) (world : Option World) (s s' : Scheduler)
    → up_to_date world s ≡ false
    → stages_for fuel world s ≡ some (s', none)
    → Settled fuel world s s'
unfolding stages_for
stages_for-Settled fuel world s s' old e =
    elim (Option-cases (work_out (setup_of world s.events) fuel s.systems)) [
      | inl n ↦
          let never : stages_for fuel world s ≡ none = rw (stages_for, old, n) refl in
          let bad = sym never ∙ e in absurd (ground arith)
      | inr ((ys, f), n) ↦ elim (Option-cases f) [
        | inr (fault, q) ↦
            let n' : work_out (setup_of world s.events) fuel s.systems ≡ some (ys, some fault) =
              rw (n, q) refl in
            let thrown : stages_for fuel world s
                ≡ some (record s { systems = ys; stages_valid = false }, some fault) =
              rw (stages_for, old, n') refl in
            let bad = ap (λ p. p.1) (eq_of_some (sym thrown ∙ e)) in absurd (ground arith)
        | inl q ↦
            let n' : work_out (setup_of world s.events) fuel s.systems ≡ some (ys, none) =
              rw (n, q) refl in
            let done : stages_for fuel world s ≡ some (set_stages world ys s) =
              rw (stages_for, old, n') refl in
            let same = eq_of_some (sym done ∙ e) in
            (ys, n', sym (ap (λ p. p.0.stages) same) ∙ set_stages-stages world ys s)
      ]
    ]

covered_apart :
    (a b x y : SystemAccess)
    → Covers a x
    → Covers b y
    → conflicts_with a b ≡ false
    → conflicts_with x y ≡ false
covered_apart a b x y p q h = elim (Bool-cases (conflicts_with x y)) [
  | inr free ↦ free
  | inl c ↦
      let one = p.conflicts y c in
      let two = q.conflicts a (conflicts_with_comm y a ∙ one) in
      let bad = sym (conflicts_with_comm a b ∙ two) ∙ h in absurd (ground arith)
]

-- After stagesFor threw nothing and made the stages anew, two different systems in the same stage
-- can run at once with all that they set off: nothing that one of them, a listener of an event or
-- a hook of a component that is emitted or edited on the way uses conflicts with anything the
-- other one or what it sets off uses. The systems name no event twice.
pub stages_for-apart :
    (fuel : ℕ) (world : Option World) (s s' : Scheduler) (i j k : ℕ) (l : List ℕ) (y z : System)
    → up_to_date world s ≡ false
    → stages_for fuel world s ≡ some (s', none)
    → get_elem? s'.stages k ≡ some l
    → contains i l ≡ true
    → contains j l ≡ true
    → i ≢ j
    → get_elem? s.systems i ≡ some y
    → get_elem? s.systems j ≡ some z
    → NoDup y.access.emits
    → NoDup z.access.emits
    → (a b : SystemAccess) → SetOff (setup_of world s.events) y.access a
    → SetOff (setup_of world s.events) z.access b
    → conflicts_with a b ≡ false
stages_for-apart fuel world s s' i j k l y z old e at ci cj ne ey ez dy dz a b offa offb =
    let setup = setup_of world s.events in
    let (ys, worked, same) = stages_for-Settled fuel world s s' old e in
    let (v, hv, atv) = work_out-get_elem? setup fuel s.systems ys i y worked ey in
    let (w, hw, atw) = work_out-get_elem? setup fuel s.systems ys j z worked ez in
    let free =
      same_stage_free (effectives ys) i j k l v.effective w.effective
        (ap (λ r. get_elem? r k) (sym same) ∙ at) ci cj ne
        (get_elem?-map (λ q. q.effective) ys i atv) (get_elem?-map (λ q. q.effective) ys j atw) in
    covered_apart v.effective w.effective a b (given-Covers setup y.access fuel v dy hv a offa)
      (given-Covers setup z.access fuel w dz hw b offb) free
