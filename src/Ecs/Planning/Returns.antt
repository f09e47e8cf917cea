-- ===== src/Ecs/Planning/Returns.antt =====
-- `stagesFor` of scheduler.hpp comes to an end.
use structured_chaos.Prelude.{
  ℕ, ◌+◌, ◌≤◌, ◌≡◌, refl, ap, ◌∙◌, Bool-cases, inl, inr, Option, Option-cases, none, some, List, [],
  ◌∷◌, All, arith,
}
use structured_chaos.Ecs.Effective.{Setup}
use structured_chaos.Ecs.Effective.Growing.{NoDup}
use structured_chaos.Ecs.Effective.Reached.{effective_access-Covers}
use structured_chaos.Ecs.Planning.{
  System, World, Scheduler, setup_of, check_system, work_out, up_to_date, stages_for,
}
use structured_chaos.Ecs.Planning.Passing.{filled, work_out_fault, work_out_passes}
use structured_chaos.Ecs.Planning.Again.{stages_for_valid, stages_for_fault, stages_for_set}

-- A system emits no event twice, as `addEmit` leaves it.
abbrev pub EmitsOnce : System → Type 0
EmitsOnce y = NoDup y.access.emits

-- With so much fuel, and with more, the computation gives something.
abbrev pub Returns {ℓ} : {A : Type ℓ} → (ℕ → Option A) → Type ℓ
Returns {A} f = (least : ℕ) × ((fuel : ℕ) → least ≤ fuel → (a : A) × (f fuel ≡ some a))

work_out-Returns :
    (setup : Setup) (ys : List System) → All EmitsOnce ys → Returns (λ fuel. work_out setup fuel ys)
unfolding work_out
work_out-Returns setup [] h = (0, λ fuel l. (([], none), refl))
work_out-Returns setup (y ∷ ys) (once, h) =
    let (least, rest) = work_out-Returns setup ys h in
    let (least', w, given, _) = effective_access-Covers setup y.access once in
    (
      least + least',
      λ fuel l.
          let e = given fuel (omega arith) in
          let ((zs, f), r) = rest fuel (omega arith) in
          elim (Option-cases (check_system (filled y w) w.foreign)) [
            | inr (fault, c) ↦ (_, work_out_fault setup fuel y ys w fault e c)
            | inl c ↦ (_, work_out_passes setup fuel y ys w zs f e c r)
          ],
    )

-- stagesFor comes to an end, with stages or with an error, for every world and every scheduler
-- whose systems name no event twice.
pub stages_for-Returns :
    (world : Option World) (s : Scheduler)
    → All EmitsOnce s.systems
    → Returns (λ fuel. stages_for fuel world s)
stages_for-Returns world s once = elim (Bool-cases (up_to_date world s)) [
  | inl h ↦ (0, λ fuel l. (_, stages_for_valid fuel world s h))
  | inr old ↦
      let (least, rest) = work_out-Returns (setup_of world s.events) s.systems once in
      (
        least,
        λ fuel l.
            let ((ys, f), n) = rest fuel l in
            elim (Option-cases f) [
              | inl q ↦ (_, stages_for_set fuel world s ys old (n ∙ ap (λ g. some (ys, g)) q))
              | inr (fault, q) ↦
                  (_, stages_for_fault fuel world s ys fault old (n ∙ ap (λ g. some (ys, g)) q))
            ],
      )
]
