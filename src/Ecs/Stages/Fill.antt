-- ===== src/Ecs/Stages/Fill.antt =====
-- `m_stages` of scheduler.hpp: stage `s` lists exactly the systems whose `stageOf` is `s`, in the
-- order they were added.
use structured_chaos.Prelude.{
  ℕ, zero, suc, ◌+◌, ◌≤◌, ◌<◌, max, List, [], ◌∷◌, ◌++◌, some, ◌≡◌, ◌≢◌, refl, sym, ap, ◌∙◌,
  if◌then◌else◌, ◌==◌, get_elem?, replicate, length, arith, get_elem?-replicate,
}
use mathlib.Core.List.{append-nil, append_assoc}
use native.Mathlib.Decide.{ℕ_discrete}
use structured_chaos.Ecs.Access.{SystemAccess}
use structured_chaos.Ecs.Stages.{Placed, assign, stage_count, push_back, fill, stages}

-- The systems of the stage, by index from `i` on, in their order.
unfoldable pub members : ℕ → ℕ → List Placed → List ℕ
members s i [] = []
members s i ((a, t) ∷ rest) = if t == s then i ∷ members s (suc i) rest else members s (suc i) rest

stage_count-ge : (placed : List Placed) (count : ℕ) → count ≤ stage_count placed count
unfolding stage_count
stage_count-ge [] count = omega arith
stage_count-ge ((a, s) ∷ rest) count = omega (arith, stage_count-ge rest (max count (s + 1)))

pub stage_count-above :
    (placed : List Placed) (count i : ℕ) (a : SystemAccess) (s : ℕ)
    → get_elem? placed i ≡ some (a, s)
    → s < stage_count placed count
unfolding stage_count
stage_count-above [] count i a s h = absurd (ground arith)
stage_count-above ((b, t) ∷ rest) count zero a s h =
    ground (arith, stage_count-ge rest (max count (t + 1)))
stage_count-above ((b, t) ∷ rest) count (suc i) a s h =
    stage_count-above rest (max count (t + 1)) i a s h

push_back_self :
    (ls : List (List ℕ)) (s i : ℕ) (l : List ℕ)
    → get_elem? ls s ≡ some l
    → get_elem? (push_back ls s i) s ≡ some (l ++ (i ∷ []))
push_back_self [] s i l h = absurd (ground arith)
push_back_self (k ∷ ls) zero i l h = ground arith
push_back_self (k ∷ ls) (suc s) i l h = push_back_self ls s i l h

push_back_ne :
    (ls : List (List ℕ)) (s t i : ℕ) → t ≢ s → get_elem? (push_back ls t i) s ≡ get_elem? ls s
push_back_ne [] s t i ne = refl
push_back_ne (k ∷ ls) zero zero i ne = absurd (ne refl)
push_back_ne (k ∷ ls) (suc s) zero i ne = refl
push_back_ne (k ∷ ls) zero (suc t) i ne = refl
push_back_ne (k ∷ ls) (suc s) (suc t) i ne = push_back_ne ls s t i (λ e. ne (ap suc e))

length-push_back : (ls : List (List ℕ)) (t i : ℕ) → length (push_back ls t i) ≡ length ls
length-push_back [] t i = refl
length-push_back (k ∷ ls) zero i = refl
length-push_back (k ∷ ls) (suc t) i = ap suc (length-push_back ls t i)

fill-members :
    (placed : List Placed) (i : ℕ) (ls : List (List ℕ)) (s : ℕ) (l : List ℕ)
    → get_elem? ls s ≡ some l
    → get_elem? (fill placed i ls) s ≡ some (l ++ members s i placed)
unfolding fill members
fill-members [] i ls s l h = h ∙ ap some (sym (append-nil l))
fill-members ((a, t) ∷ rest) i ls s l h = elim (ℕ_discrete t s) [
  | yes e ↦ ground (
    arith,
    fill-members rest (suc i) (push_back ls s i) s (l ++ (i ∷ [])) (push_back_self ls s i l h),
    append_assoc l (i ∷ []) (members s (suc i) rest),
  )
  | no ne ↦
      ground
        (arith, fill-members rest (suc i) (push_back ls t i) s l (push_back_ne ls s t i ne ∙ h))
]

length-fill :
    (placed : List Placed) (i : ℕ) (ls : List (List ℕ)) → length (fill placed i ls) ≡ length ls
unfolding fill
length-fill [] i ls = refl
length-fill ((a, t) ∷ rest) i ls =
    length-fill rest (suc i) (push_back ls t i) ∙ length-push_back ls t i

length-replicate : (n : ℕ) (l : List ℕ) → length (replicate n l) ≡ n
length-replicate zero l = refl
length-replicate (suc n) l = ap suc (length-replicate n l)

pub length-stages :
    (accesses : List SystemAccess) → length (stages accesses) ≡ stage_count (assign [] accesses) 0
unfolding stages
length-stages accesses =
    length-fill (assign [] accesses) 0 (replicate (stage_count (assign [] accesses) 0) [])
    ∙ length-replicate (stage_count (assign [] accesses) 0) []

-- Every list of m_stages is the row of the systems whose stageOf is that stage, each once, in the
-- order they were added.
pub stages-members :
    (accesses : List SystemAccess) (s : ℕ)
    → s < length (stages accesses)
    → get_elem? (stages accesses) s ≡ some (members s 0 (assign [] accesses))
unfolding stages
stages-members accesses s h =
    fill-members (assign [] accesses) 0 (replicate (stage_count (assign [] accesses) 0) []) s [] (
      get_elem?-replicate (stage_count (assign [] accesses) 0) [] s
        (rw (length-stages accesses) at h))
