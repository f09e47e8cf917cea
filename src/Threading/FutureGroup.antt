-- ===== src/Threading/FutureGroup.antt =====
-- `FutureGroup` of src/sc/threading/future_group.hpp. A `std::future` is invalid, or has a result that is
-- there or still comes; a result is a value or an exception. `get` of a future waits for the result, and
-- leaves the future invalid.
pub mod Collecting
mod Tests
use structured_chaos.Prelude.{
  ℕ, zero, suc, ◌+◌, Bool, true, false, ◌&&◌, List, [], ◌∷◌, ◌++◌, Option, none, some,
  if◌then◌else◌,
}

pub data Result {ℓ κ} (A : Type ℓ) (E : Type κ) : Type (ℓ ⊔ κ) where
  value : A → Result A E
  exception : E → Result A E

pub data Future {ℓ κ} (A : Type ℓ) (E : Type κ) : Type (ℓ ⊔ κ) where
  invalid : Future A E
  coming : Result A E → Future A E
  there : Result A E → Future A E

-- `consume`: the first error stays.
abbrev pub keep_first {κ} : {E : Type κ} → Option E → E → Option E
keep_first none e = some e
keep_first (some old) e = some old

module _ {ℓ κ} {A : Type ℓ} {E : Type κ} where
  -- `f.valid()`
  abbrev pub is_valid : Future A E → Bool
  is_valid invalid = false
  is_valid (coming r) = true
  is_valid (there r) = true

  -- `!f.valid() || f.wait_for(0) == ready`
  abbrev pub is_done : Future A E → Bool
  is_done invalid = true
  is_done (coming r) = false
  is_done (there r) = true

  -- `push`
  abbrev pub push : Future A E → List (Future A E) → List (Future A E)
  push f fs = fs ++ (f ∷ [])

  -- `wait`
  unfoldable pub wait : List (Future A E) → List (Future A E)
  wait [] = []
  wait (invalid ∷ fs) = invalid ∷ wait fs
  wait (coming r ∷ fs) = there r ∷ wait fs
  wait (there r ∷ fs) = there r ∷ wait fs

  -- `ready`
  unfoldable pub ready : List (Future A E) → Bool
  ready [] = true
  ready (f ∷ fs) = is_done f && ready fs

  -- `completedCount`
  unfoldable pub completed_count : List (Future A E) → ℕ
  completed_count [] = 0
  completed_count (f ∷ fs) = (if is_done f then 1 else 0) + completed_count fs

  -- `validCount`
  unfoldable pub valid_count : List (Future A E) → ℕ
  valid_count [] = 0
  valid_count (f ∷ fs) = (if is_valid f then 1 else 0) + valid_count fs

  -- What one future does to the results and the first error.
  abbrev pub consume : Result A E → List A × Option E → List A × Option E
  consume (value a) p = (p.0 ++ (a ∷ []), p.1)
  consume (exception e) p = (p.0, keep_first p.1 e)

  -- The loop of `get`, with the futures as it leaves them.
  unfoldable pub get_all :
      List (Future A E) → List A × Option E → List (Future A E) × List A × Option E
  get_all [] p = ([], p.0, p.1)
  get_all (invalid ∷ fs) p = let rest = get_all fs p in (invalid ∷ rest.0, rest.1, rest.2)
  get_all (coming r ∷ fs) p =
      let rest = get_all fs (consume r p) in (invalid ∷ rest.0, rest.1, rest.2)
  get_all (there r ∷ fs) p =
      let rest = get_all fs (consume r p) in (invalid ∷ rest.0, rest.1, rest.2)

  abbrev pub outcome : List A → Option E → Result (List A) E
  outcome results none = value results
  outcome results (some e) = exception e

  -- `get`
  unfoldable pub get : List (Future A E) → List (Future A E) × Result (List A) E
  unfolding get_all
  get fs = let all = get_all fs ([], none) in (all.0, outcome all.1 all.2)
