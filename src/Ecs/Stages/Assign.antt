-- ===== src/Ecs/Stages/Assign.antt =====
-- `stageOf` of scheduler.hpp: every system gets the first stage after the last earlier one that it
-- conflicts with.
use structured_chaos.Prelude.{
  ℕ, zero, suc, ◌+◌, ◌≤◌, ◌<◌, max, true, List, [], ◌∷◌, ◌++◌, map, some, ◌≡◌, ◌⊎◌, inl, inr, refl,
  sym, ap, ◌∙◌, if◌then◌else◌, get_elem?, take, length, length-append, arith, Bool-cases,
  lt_of_get_elem?, get_elem?-append_left, get_elem?-append_length, take-append_left, take-length,
  get_elem?-take, length-take_le,
}
use mathlib.Core.List.{append-nil, append_assoc, map-append}
use native.Mathlib.Decide.{dec_lt}
use structured_chaos.Ecs.Access.{SystemAccess, conflicts_with}
use structured_chaos.Ecs.Stages.{Placed, stage_for, assign}

stage_for-ge : (a : SystemAccess) (done : List Placed) (stage : ℕ) → stage ≤ stage_for a done stage
unfolding stage_for
stage_for-ge a [] stage = omega arith
stage_for-ge a ((e, s) ∷ rest) stage =
    ground (arith, stage_for-ge a rest (if conflicts_with a e then max stage (s + 1) else stage))

-- Above every earlier system that it conflicts with.
stage_for-above :
    (a : SystemAccess) (done : List Placed) (stage i : ℕ) (e : SystemAccess) (s : ℕ)
    → get_elem? done i ≡ some (e, s)
    → conflicts_with a e ≡ true
    → s < stage_for a done stage
unfolding stage_for
stage_for-above a [] stage i e s h c = absurd (ground arith)
stage_for-above a ((d, t) ∷ rest) stage zero e s h c =
    ground (arith, stage_for-ge a rest (if conflicts_with a d then max stage (t + 1) else stage))
stage_for-above a ((d, t) ∷ rest) stage (suc i) e s h c =
    stage_for-above a rest (if conflicts_with a d then max stage (t + 1) else stage) i e s h c

-- An earlier system right below it that it conflicts with.
pub record Reason (a : SystemAccess) (done : List Placed) (stage : ℕ) : Type 0 where
  pub at : ℕ
  pub access : SystemAccess
  pub below : ℕ
  pub found : get_elem? done at ≡ some (access, below)
  pub conflict : conflicts_with a access ≡ true
  pub next : suc below ≡ stage

stage_for-Reason :
    (a : SystemAccess) (done : List Placed) (stage : ℕ)
    → (stage_for a done stage ≡ stage) ⊎ Reason a done (stage_for a done stage)
unfolding stage_for
stage_for-Reason a [] stage = inl refl
stage_for-Reason a ((e, s) ∷ rest) stage =
    elim (stage_for-Reason a rest (if conflicts_with a e then max stage (s + 1) else stage)) [
      | inl same ↦ elim (Bool-cases (conflicts_with a e)) [
        | inl c ↦ elim (dec_lt stage (s + 1)) [
          | yes lt ↦ inr (record {
            at = 0;
            access = e;
            below = s;
            found = refl;
            conflict = c;
            next = ground arith;
          })
          | no ge ↦ inl (ground arith)
        ]
        | inr free ↦ inl (ground arith)
      ]
      | inr r ↦ inr (record {
        at = suc r.at;
        access = r.access;
        below = r.below;
        found = r.found;
        conflict = r.conflict;
        next = r.next;
      })
    ]

-- Every system has the stage that the loop gives it behind those before it.
abbrev IsAssigned : List Placed → Type 0
IsAssigned placed =
    (j : ℕ) (b : SystemAccess) (t : ℕ)
    → get_elem? placed j ≡ some (b, t)
    → t ≡ stage_for b (take j placed) 0

last-IsAssigned :
    (done : List Placed) (a : SystemAccess) (j : ℕ) (b : SystemAccess) (t : ℕ)
    → j ≡ length done
    → get_elem? (done ++ ((a, stage_for a done 0) ∷ [])) j ≡ some (b, t)
    → t ≡ stage_for b (take j (done ++ ((a, stage_for a done 0) ∷ []))) 0
last-IsAssigned done a j b t same e =
    let all : take j (done ++ ((a, stage_for a done 0) ∷ [])) ≡ done =
      rw same (take-append_left done _ (length done) (omega arith) ∙ take-length done) in
    let last : some (b, t) ≡ some (a, stage_for a done 0) =
      sym e
      ∙ ap (get_elem? (done ++ ((a, stage_for a done 0) ∷ []))) same
      ∙ get_elem?-append_length done (a, stage_for a done 0) [] in
    rw all (cc last)

snoc-IsAssigned :
    (done : List Placed) (a : SystemAccess)
    → IsAssigned done
    → IsAssigned (done ++ ((a, stage_for a done 0) ∷ []))
snoc-IsAssigned done a h j b t e = elim (dec_lt j (length done)) [
  | yes lt ↦
      h j b t (sym (get_elem?-append_left done _ j lt) ∙ e)
      ∙ ap (λ l. stage_for b l 0) (sym (take-append_left done _ j (omega arith)))
  | no ge ↦
      let same : j ≡ length done = omega (
        arith,
        lt_of_get_elem? (done ++ ((a, stage_for a done 0) ∷ [])) j e,
        length-append done ((a, stage_for a done 0) ∷ []),
      ) in
      last-IsAssigned done a j b t same e
]

assign-IsAssigned :
    (done : List Placed) (rest : List SystemAccess)
    → IsAssigned done
    → IsAssigned (assign done rest)
unfolding assign
assign-IsAssigned done [] h = h
assign-IsAssigned done (a ∷ rest) h =
    assign-IsAssigned (done ++ ((a, stage_for a done 0) ∷ [])) rest (snoc-IsAssigned done a h)

nil-IsAssigned : IsAssigned []
nil-IsAssigned j b t e = absurd (ground arith)

-- A system that conflicts with one added earlier gets a later stage than it, so systems that
-- cannot run together keep the order in which they were added.
pub conflicting_later :
    (accesses : List SystemAccess) (i j : ℕ) (a b : SystemAccess) (s t : ℕ)
    → i < j
    → get_elem? (assign [] accesses) i ≡ some (a, s)
    → get_elem? (assign [] accesses) j ≡ some (b, t)
    → conflicts_with b a ≡ true
    → s < t
conflicting_later accesses i j a b s t l e f c =
    rw (assign-IsAssigned [] accesses nil-IsAssigned j b t f) (
      stage_for-above b (take j (assign [] accesses)) 0 i a s
        (get_elem?-take (assign [] accesses) i j l ∙ e) c)

-- A system that is not in the first stage conflicts with a system added earlier that is in the
-- stage right before its own: no system waits without a reason.
pub stage_has_Reason :
    (accesses : List SystemAccess) (j : ℕ) (b : SystemAccess) (t : ℕ)
    → get_elem? (assign [] accesses) j ≡ some (b, t)
    → 0 < t
    → (i : ℕ) × (a : SystemAccess) × (s : ℕ) × (i < j)
      × (get_elem? (assign [] accesses) i ≡ some (a, s))
      × (conflicts_with b a ≡ true)
      × (suc s ≡ t)
stage_has_Reason accesses j b t f p =
    let e = assign-IsAssigned [] accesses nil-IsAssigned j b t f in
    elim (stage_for-Reason b (take j (assign [] accesses)) 0) [
      | inl zero_stage ↦ absurd (omega (arith, e))
      | inr r ↦
          let before : r.at < j = omega (
            arith,
            lt_of_get_elem? (take j (assign [] accesses)) r.at r.found,
            length-take_le (assign [] accesses) j,
          ) in
          (
            r.at,
            r.access,
            r.below,
            before,
            sym (get_elem?-take (assign [] accesses) r.at j before) ∙ r.found,
            r.conflict,
            r.next ∙ sym e,
          )
    ]

-- Every system has a stage, and none is added or dropped.
assign-accesses :
    (done : List Placed) (rest : List SystemAccess)
    → map (λ p. p.0) (assign done rest) ≡ map (λ p. p.0) done ++ rest
unfolding assign
assign-accesses done [] = sym (append-nil _)
assign-accesses done (a ∷ rest) =
    assign-accesses (done ++ ((a, stage_for a done 0) ∷ [])) rest
    ∙ ap (λ l. l ++ rest) (map-append (λ p. p.0) done ((a, stage_for a done 0) ∷ []))
    ∙ append_assoc (map (λ p. p.0) done) (a ∷ []) rest

pub map-assign : (accesses : List SystemAccess) → map (λ p. p.0) (assign [] accesses) ≡ accesses
map-assign accesses = assign-accesses [] accesses
