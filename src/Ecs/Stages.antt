-- ===== src/Ecs/Stages.antt =====
-- The stages of src/sc/ecs/scheduler.hpp: the part of `stagesFor` that puts every system into one, after
-- it has worked out what each system uses (`effective`).
pub mod Assign
pub mod Fill
pub mod Independent
mod Tests
use structured_chaos.Prelude.{
  ℕ, zero, suc, ◌+◌, max, Bool, true, false, List, [], ◌∷◌, ◌++◌, Option, none, some, if◌then◌else◌,
  get_elem?, set, replicate,
}
use structured_chaos.Ecs.Access.{SystemAccess, conflicts_with}

-- What a system uses, with its place in `stageOf`.
abbrev pub Placed : Type 0
Placed = SystemAccess × ℕ

-- The loop over `earlier` for one system: `stageOf[i]`, from `stage` on.
unfoldable pub stage_for : SystemAccess → List Placed → ℕ → ℕ
stage_for a [] stage = stage
stage_for a ((e, s) ∷ rest) stage =
    stage_for a rest (if conflicts_with a e then max stage (s + 1) else stage)

-- The loop over the systems, behind those that have their stage.
unfoldable pub assign : List Placed → List SystemAccess → List Placed
assign done [] = done
assign done (a ∷ rest) = assign (done ++ ((a, stage_for a done 0) ∷ [])) rest

-- `count`
unfoldable pub stage_count : List Placed → ℕ → ℕ
stage_count [] count = count
stage_count ((a, s) ∷ rest) count = stage_count rest (max count (s + 1))

-- `m_stages[stage].push_back(i)`; no stage is out of range.
abbrev pub push_back : List (List ℕ) → ℕ → ℕ → List (List ℕ)
push_back [] stage i = []
push_back (l ∷ rest) zero i = (l ++ (i ∷ [])) ∷ rest
push_back (l ∷ rest) (suc stage) i = l ∷ push_back rest stage i

-- The loop that fills `m_stages`, from system `i` on.
unfoldable pub fill : List Placed → ℕ → List (List ℕ) → List (List ℕ)
fill [] i stages = stages
fill ((a, s) ∷ rest) i stages = fill rest (suc i) (push_back stages s i)

-- `m_stages`
unfoldable pub stages : List SystemAccess → List (List ℕ)
unfolding assign
stages accesses =
    let placed = assign [] accesses in fill placed 0 (replicate (stage_count placed 0) [])
