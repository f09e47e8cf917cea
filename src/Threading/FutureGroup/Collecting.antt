-- ===== src/Threading/FutureGroup/Collecting.antt =====
-- What `get` of future_group.hpp collects, against the results in the order they were pushed.
use structured_chaos.Prelude.{
  suc, ◌≤◌, ◌≡◌, ◌↔◌, refl, sym, ap, ◌∙◌, true, List, [], ◌∷◌, ◌++◌, Option, none, some, length,
  arith,
}
use mathlib.Core.List.{append_assoc, append-nil}
use structured_chaos.Threading.FutureGroup.{
  Result, value, exception, Future, invalid, coming, there, ready, completed_count, valid_count,
  keep_first, consume, get_all, get, outcome,
}

or_first {κ} : {E : Type κ} → Option E → Option E → Option E
or_first none o = o
or_first (some e) o = some e

or_first-none {κ} : {E : Type κ} (o : Option E) → o ≡ or_first o none
unfolding or_first
or_first-none none = refl
or_first-none (some e) = refl

none_first {κ} : {E : Type κ} (o : Option E) → or_first none o ≡ o
unfolding or_first
none_first o = refl

or_first-keep_first {κ} :
    {E : Type κ} (o : Option E) (e : E) (p : Option E)
    → or_first (keep_first o e) p ≡ or_first o (some e)
unfolding or_first
or_first-keep_first none e p = refl
or_first-keep_first (some old) e p = refl

module _ {ℓ κ} {A : Type ℓ} {E : Type κ} where
  -- The results of the valid futures, in order.
  abbrev pub results : List (Future A E) → List (Result A E)
  results [] = []
  results (invalid ∷ fs) = results fs
  results (coming r ∷ fs) = r ∷ results fs
  results (there r ∷ fs) = r ∷ results fs

  abbrev pub values : List (Result A E) → List A
  values [] = []
  values (value a ∷ rs) = a ∷ values rs
  values (exception e ∷ rs) = values rs

  abbrev pub first_exception : List (Result A E) → Option E
  first_exception [] = none
  first_exception (value a ∷ rs) = first_exception rs
  first_exception (exception e ∷ rs) = some e

  -- What a group gives: the first exception, or all values.
  abbrev pub with_value : A → Result (List A) E → Result (List A) E
  with_value a (value xs) = value (a ∷ xs)
  with_value a (exception e) = exception e

  abbrev pub collected : List (Result A E) → Result (List A) E
  collected [] = value []
  collected (value a ∷ rs) = with_value a (collected rs)
  collected (exception e ∷ rs) = exception e

  all_invalid : List (Future A E) → List (Future A E)
  all_invalid [] = []
  all_invalid (f ∷ fs) = invalid ∷ all_invalid fs

  get_all_lem :
      (fs : List (Future A E)) (p : List A × Option E)
      → ((get_all fs p).0 ≡ all_invalid fs)
        × ((get_all fs p).1 ≡ p.0 ++ values (results fs))
        × ((get_all fs p).2 ≡ or_first p.1 (first_exception (results fs)))
  unfolding get_all all_invalid or_first
  get_all_lem [] p = (refl, sym (append-nil p.0), or_first-none p.1)
  get_all_lem (invalid ∷ fs) p = let r = get_all_lem fs p in (ap (λ l. invalid ∷ l) r.0, r.1, r.2)
  get_all_lem (coming (value a) ∷ fs) p =
      let r = get_all_lem fs (consume (value a) p) in
      (ap (λ l. invalid ∷ l) r.0, r.1 ∙ append_assoc p.0 (a ∷ []) (values (results fs)), r.2)
  get_all_lem (coming (exception e) ∷ fs) p =
      let r = get_all_lem fs (consume (exception e) p) in
      (
        ap (λ l. invalid ∷ l) r.0,
        r.1,
        r.2 ∙ or_first-keep_first p.1 e (first_exception (results fs)),
      )
  get_all_lem (there (value a) ∷ fs) p =
      let r = get_all_lem fs (consume (value a) p) in
      (ap (λ l. invalid ∷ l) r.0, r.1 ∙ append_assoc p.0 (a ∷ []) (values (results fs)), r.2)
  get_all_lem (there (exception e) ∷ fs) p =
      let r = get_all_lem fs (consume (exception e) p) in
      (
        ap (λ l. invalid ∷ l) r.0,
        r.1,
        r.2 ∙ or_first-keep_first p.1 e (first_exception (results fs)),
      )

  all_invalid-length : (fs : List (Future A E)) → length (all_invalid fs) ≡ length fs
  unfolding all_invalid
  all_invalid-length [] = refl
  all_invalid-length (f ∷ fs) = ap suc (all_invalid-length fs)

  all_invalid-valid_count : (fs : List (Future A E)) → valid_count (all_invalid fs) ≡ 0
  unfolding all_invalid valid_count
  all_invalid-valid_count [] = refl
  all_invalid-valid_count (f ∷ fs) = omega (arith, all_invalid-valid_count fs)

  outcome_more :
      (a : A) (xs : List A) (o : Option E) → outcome (a ∷ xs) o ≡ with_value a (outcome xs o)
  outcome_more a xs none = refl
  outcome_more a xs (some e) = refl

  outcome-collected :
      (rs : List (Result A E)) → outcome (values rs) (first_exception rs) ≡ collected rs
  outcome-collected [] = refl
  outcome-collected (value a ∷ rs) =
      outcome_more a (values rs) (first_exception rs) ∙ ap (with_value a) (outcome-collected rs)
  outcome-collected (exception e ∷ rs) = refl

  completed_count-le : (fs : List (Future A E)) → completed_count fs ≤ length fs
  unfolding completed_count
  completed_count-le [] = omega arith
  completed_count-le (f ∷ fs) = ground (arith, completed_count-le fs)

  -- get gives the values of all valid futures in the order they were pushed, or the first exception
  -- in that order, and leaves every future invalid and the number of futures as it was.
  pub get-collected :
      (fs : List (Future A E))
      → ((get fs).1 ≡ collected (results fs))
        × (valid_count (get fs).0 ≡ 0)
        × (length (get fs).0 ≡ length fs)
  unfolding get
  get-collected fs =
      let r = get_all_lem fs ([], none) in
      let gone = r.0 in
      (
        ap (λ x. outcome x (get_all fs ([], none)).2) r.1
            ∙ ap (outcome (values (results fs))) (r.2 ∙ none_first (first_exception (results fs)))
            ∙ outcome-collected (results fs),
        ap valid_count gone ∙ all_invalid-valid_count fs,
        ap length gone ∙ all_invalid-length fs,
      )

  -- ready is true exactly if completedCount is the number of futures.
  pub ready_iff : (fs : List (Future A E)) → (ready fs ≡ true) ↔ (completed_count fs ≡ length fs)
  unfolding ready completed_count
  ready_iff [] = (λ _. refl, λ _. refl)
  ready_iff (invalid ∷ fs) =
      let r = ready_iff fs in (λ h. omega (arith, r.0 h), λ h. r.1 (omega (arith, h)))
  ready_iff (coming r ∷ fs) =
      (λ h. absurd (ground arith), λ h. absurd (omega (arith, h, completed_count-le fs)))
  ready_iff (there x ∷ fs) =
      let r = ready_iff fs in (λ h. omega (arith, r.0 h), λ h. r.1 (omega (arith, h)))
