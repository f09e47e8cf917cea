-- ===== src/Ecs/Stages/Independent.antt =====
-- What the stages of scheduler.hpp promise: the systems of a stage may run at the same time.
use structured_chaos.Prelude.{
  ℕ, zero, suc, ◌+◌, ◌-◌, ◌≤◌, ◌<◌, true, false, List, [], ◌∷◌, some, ◌≡◌, ◌≢◌, inl, inr, ◌↔◌, sym,
  ap, ◌∙◌, get_elem?, length, arith, Bool-cases, lt_of_get_elem?, get_elem?-map, eq_of_some,
}
use native.Mathlib.Decide.{dec_lt, ℕ_discrete}
use structured_chaos.Ecs.Access.{SystemAccess, conflicts_with, contains}
use structured_chaos.Ecs.Access.Conflicts.{conflicts_with_comm}
use structured_chaos.Ecs.Stages.{Placed, assign, stages}
use structured_chaos.Ecs.Stages.Assign.{conflicting_later, map-assign}
use structured_chaos.Ecs.Stages.Fill.{members, stages-members, length-stages, stage_count-above}

contains-members :
    (placed : List Placed) (s k i : ℕ)
    → contains i (members s k placed) ≡ true
    → (a : SystemAccess) × (k ≤ i) × (get_elem? placed (i - k) ≡ some (a, s))
unfolding contains members
contains-members [] s k i h = absurd (ground arith)
contains-members ((a, t) ∷ rest) s k i h = elim (ℕ_discrete k i) [
  | yes e ↦ elim (ℕ_discrete t s) [
    | yes f ↦ let at : i - k ≡ 0 = omega arith in (a, omega arith, rw at (rw f))
    | no f ↦ let c = contains-members rest s (suc k) i (ground arith) in absurd (omega (arith, c.1))
  ]
  | no ne ↦
      let c = contains-members rest s (suc k) i (ground arith) in
      let at : i - k ≡ suc (i - suc k) = omega (arith, c.1) in (c.0, omega (arith, c.1), rw at c.2)
]

members-contains :
    (placed : List Placed) (s k i : ℕ) (a : SystemAccess)
    → get_elem? placed i ≡ some (a, s)
    → contains (k + i) (members s k placed) ≡ true
unfolding contains members
members-contains [] s k i a h = absurd (ground arith)
members-contains ((b, t) ∷ rest) s k zero a h = ground arith
members-contains ((b, t) ∷ rest) s k (suc i) a h =
    let at : k + suc i ≡ suc k + i = omega arith in
    rw at (ground (arith, members-contains rest s (suc k) i a h))

-- A system stands in the list of a stage exactly if stageOf gives it that stage, so in one stage
-- and in no other.
pub in_stage_iff :
    (accesses : List SystemAccess) (i s : ℕ)
    → ((l : List ℕ) × (get_elem? (stages accesses) s ≡ some l) × (contains i l ≡ true))
      ↔ ((a : SystemAccess) × (get_elem? (assign [] accesses) i ≡ some (a, s)))
in_stage_iff accesses i s = (
  λ (l, e, c).
      let same : some l ≡ some (members s 0 (assign [] accesses)) =
        sym e ∙ stages-members accesses s (lt_of_get_elem? (stages accesses) s e) in
      let m =
        contains-members (assign [] accesses) s 0 i (ap (contains i) (sym (eq_of_some same)) ∙ c) in
      let at : i ≡ i - 0 = omega arith in (m.0, ap (get_elem? (assign [] accesses)) at ∙ m.2),
  λ (a, e).
      let below : s < length (stages accesses) =
        rw (length-stages accesses) (stage_count-above (assign [] accesses) 0 i a s e) in
      let at : i ≡ 0 + i = omega arith in
      (
        members s 0 (assign [] accesses),
        stages-members accesses s below,
        ap (λ n. contains n (members s 0 (assign [] accesses))) at
            ∙ members-contains (assign [] accesses) s 0 i a e,
      ),
)

placed_access :
    (accesses : List SystemAccess) (i : ℕ) (a p : SystemAccess) (s : ℕ)
    → get_elem? accesses i ≡ some a
    → get_elem? (assign [] accesses) i ≡ some (p, s)
    → p ≡ a
placed_access accesses i a p s e f = eq_of_some (
    sym (get_elem?-map (λ q. q.0) (assign [] accesses) i f)
    ∙ ap (λ l. get_elem? l i) (map-assign accesses)
    ∙ e)

earlier_free :
    (accesses : List SystemAccess) (i j : ℕ) (a b p q : SystemAccess) (s : ℕ)
    → i < j
    → get_elem? accesses i ≡ some a
    → get_elem? accesses j ≡ some b
    → get_elem? (assign [] accesses) i ≡ some (p, s)
    → get_elem? (assign [] accesses) j ≡ some (q, s)
    → conflicts_with b a ≡ false
earlier_free accesses i j a b p q s lt ea eb ep eq = elim (Bool-cases (conflicts_with b a)) [
  | inr free ↦ free
  | inl c ↦
      let same = placed_access accesses i a p s ea ep in
      let same' = placed_access accesses j b q s eb eq in
      absurd (
        omega (
          arith,
          conflicting_later accesses i j p q s s lt ep eq
              (ap (λ x. conflicts_with x p) same' ∙ ap (conflicts_with b) same ∙ c),
        ))
]

-- Two different systems that stand in the same stage of the scheduler do not conflict, in
-- whichever order they were added.
pub same_stage_free :
    (accesses : List SystemAccess) (i j s : ℕ) (l : List ℕ) (a b : SystemAccess)
    → get_elem? (stages accesses) s ≡ some l
    → contains i l ≡ true
    → contains j l ≡ true
    → i ≢ j
    → get_elem? accesses i ≡ some a
    → get_elem? accesses j ≡ some b
    → conflicts_with a b ≡ false
same_stage_free accesses i j s l a b e ci cj ne ea eb =
    let (p, ep) = (in_stage_iff accesses i s).0 (l, e, ci) in
    let (q, eq) = (in_stage_iff accesses j s).0 (l, e, cj) in
    elim (dec_lt i j) [
      | yes lt ↦ conflicts_with_comm a b ∙ earlier_free accesses i j a b p q s lt ea eb ep eq
      | no ge ↦ earlier_free accesses j i b a q p s (omega arith) eb ea eq ep
    ]
