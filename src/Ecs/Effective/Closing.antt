-- ===== src/Ecs/Effective/Closing.antt =====
-- The loops of `effectiveAccess` of scheduler.hpp end, with all that is set off taken.
use native.Mathlib.Decide.{dec_lt}
use structured_chaos.Prelude.{
  ℕ, zero, suc, ◌+◌, ◌*◌, ◌≤◌, ◌<◌, ◌≡◌, refl, ap, ◌∙◌, subst, true, false, Bool-cases, inl, inr,
  Option-cases, none, some, List, length, get_elem?, get_elem?_lt, take, take-length, ltb,
  if◌then◌else◌, arith,
}
use structured_chaos.Ecs.Access.{SystemAccess}
use structured_chaos.Ecs.Effective.{
  Setup, Work, take_emit, take_modified, Phase, emitting, modifying, run, start, effective_access,
}
use structured_chaos.Ecs.Effective.Growing.{Covers-refl, NoDup}
use structured_chaos.Ecs.Effective.Pending.{pending, unread}
use structured_chaos.Ecs.Effective.Rounds.{
  AllCovered, emit_accesses, hook_accesses, Inv, Closed, take_emit-Inv, take_emit-Progress,
}
use structured_chaos.Ecs.Effective.Edits.{take_modified-Inv, take_modified-Progress}

-- One step of the loops.
module _ (s : Setup) (fuel : ℕ) (v : Work) where
  pub run_emit :
      (tag : ℕ)
      → get_elem? v.effective.emits v.emits ≡ some tag
      → run s (suc fuel) emitting v ≡ run s fuel emitting (take_emit s tag v)
  unfolding run
  run_emit tag e = rw (run, e) refl

  pub run_emitted :
      get_elem? v.effective.emits v.emits ≡ none
      → run s (suc fuel) emitting v ≡ run s fuel modifying v
  unfolding run
  run_emitted e = rw (run, e) refl

  pub run_modified :
      (component : ℕ)
      → get_elem? v.effective.modified v.modified ≡ some component
      → run s (suc fuel) modifying v ≡ run s fuel modifying (take_modified s component v)
  unfolding run
  run_modified component e = rw (run, e) refl

  pub run_again :
      get_elem? v.effective.modified v.modified ≡ none
      → ltb v.emits (length v.effective.emits) ≡ true
      → run s (suc fuel) modifying v ≡ run s fuel emitting v
  unfolding run
  run_again e h = rw (run, e, h) refl

  pub run_ends :
      get_elem? v.effective.modified v.modified ≡ none
      → ltb v.emits (length v.effective.emits) ≡ false
      → run s (suc fuel) modifying v ≡ some v
  unfolding run
  run_ends e h = rw (run, e, h) refl

at_end : (xs : List ℕ) (i : ℕ) → get_elem? xs i ≡ none → length xs ≤ i
at_end xs i e = elim (dec_lt i (length xs)) [
  | no n ↦ omega arith
  | yes l ↦ let (a, h) = get_elem?_lt xs i l in absurd (ground arith)
]

module _ (s : Setup) (own : SystemAccess) where
  -- The loops end from here, with all that is set off taken.
  abbrev Ends : Phase → Work → Type 0
  Ends phase v = (fuel : ℕ) × (w : Work) × (run s fuel phase v ≡ some w) × Closed s own w.effective

  -- Falls with each step that takes nothing new.
  abbrev rank : Phase → Work → ℕ
  rank emitting v = 3 * unread v + (if ltb v.emits (length v.effective.emits) then 0 else 2)
  rank modifying v = 3 * unread v + 1

  over-Closed :
      (v : Work)
      → Inv s own v
      → length v.effective.emits ≤ v.emits
      → length v.effective.modified ≤ v.modified
      → Closed s own v.effective
  over-Closed v inv e m =
      let el = inv.emits_le in
      let ml = inv.modified_le in
      let e' : v.emits ≡ length v.effective.emits = omega arith in
      let m' : v.modified ≡ length v.effective.modified = omega arith in
      record {
        covers_own = inv.covers_own;
        emits =
            subst (AllCovered v.effective (emit_accesses s own))
              (ap (λ n. take n v.effective.emits) e' ∙ take-length v.effective.emits)
              inv.emits_done;
        modified =
            subst (AllCovered v.effective (hook_accesses s own))
              (ap (λ n. take n v.effective.modified) m' ∙ take-length v.effective.modified)
              inv.modified_done;
      }

  before :
      (phase phase' : Phase) (v v' : Work)
      → ((fuel : ℕ) → run s (suc fuel) phase v ≡ run s fuel phase' v')
      → Ends phase' v'
      → Ends phase v
  before phase phase' v v' step (fuel, w, e, c) = (suc fuel, w, step fuel ∙ e, c)

  rounds :
      (p : ℕ)
      → ((phase : Phase) (v : Work) → Inv s own v → pending s v < p → Ends phase v)
      → (n : ℕ) (phase : Phase) (v : Work) → Inv s own v
      → pending s v ≤ p
      → rank phase v < n
      → Ends phase v
  rounds p rec zero phase v inv l r = absurd (omega arith)
  rounds p rec (suc n) emitting v inv l r =
      elim (Option-cases (get_elem? v.effective.emits v.emits)) [
        | inr (tag, e) ↦
            let w = take_emit s tag v in
            let inv' = take_emit-Inv s own v tag inv e in
            before _ _ _ _ (λ fuel. run_emit s fuel v tag e)
              (elim (take_emit-Progress s own v tag inv e) [
                | inl less ↦ rec emitting w inv' (omega arith)
                | inr (le, un) ↦ rounds p rec n emitting w inv' (omega arith) (ground arith)
              ])
        | inl e ↦
            let over = at_end v.effective.emits v.emits e in
            before _ _ _ _ (λ fuel. run_emitted s fuel v e)
              (rounds p rec n modifying v inv l (ground arith))
      ]
  rounds p rec (suc n) modifying v inv l r =
      elim (Option-cases (get_elem? v.effective.modified v.modified)) [
        | inr (component, e) ↦
            let w = take_modified s component v in
            let inv' = take_modified-Inv s own v component inv e in
            before _ _ _ _ (λ fuel. run_modified s fuel v component e)
              (elim (take_modified-Progress s own v component inv e) [
                | inl less ↦ rec modifying w inv' (omega arith)
                | inr (le, un) ↦ rounds p rec n modifying w inv' (omega arith) (ground arith)
              ])
        | inl e ↦ elim (Bool-cases (ltb v.emits (length v.effective.emits))) [
          | inl h ↦
              before _ _ _ _ (λ fuel. run_again s fuel v e h)
                (rounds p rec n emitting v inv l (ground arith))
          | inr h ↦ (
            1,
            v,
            run_ends s 0 v e h,
            over-Closed v inv (ground arith) (at_end v.effective.modified v.modified e),
          )
        ]
      ]

  ends : (p : ℕ) (phase : Phase) (v : Work) → Inv s own v → pending s v < p → Ends phase v
  ends zero phase v inv l = absurd (omega arith)
  ends (suc p) phase v inv l =
      rounds p (ends p) (suc (rank phase v)) phase v inv (omega arith) (omega arith)

-- effective
pub effective_access-Closed :
    (s : Setup) (own : SystemAccess)
    → NoDup own.emits
    → (fuel : ℕ) × (w : Work) × (effective_access s fuel own ≡ some w) × Closed s own w.effective
unfolding effective_access
effective_access-Closed s own dup =
    ends s own (suc (pending s (start own))) emitting (start own)
      (record {
        covers_own = Covers-refl own;
        no_dup = dup;
        emits_le = omega arith;
        modified_le = omega arith;
        emits_done = tt;
        modified_done = tt;
        hooked_done = tt;
      })
      (omega arith)
