-- ===== src/Memory/CleanupList/Chain.antt =====
-- The chain of nodes that cleanup_list.hpp keeps through `next`.
use structured_chaos.Prelude.{
  ℕ, ◌+◌, ◌≡◌, false, Bool-cases, inl, inr, ◌==◌, Option, none, some, List, [], ◌∷◌, write,
  if◌then◌else◌, arith,
}

-- How often a node is in a list.
abbrev pub times : ℕ → List ℕ → ℕ
times n [] = 0
times n (m ∷ l) = (if m == n then 1 else 0) + times n l

-- The nodes from one on are those of a list, and no others.
abbrev pub Chain : (ℕ → Option ℕ) → Option ℕ → List ℕ → Type 0
Chain next first [] = first ≡ none
Chain next first (n ∷ l) = (first ≡ some n) × Chain next (next n) l

pub Chain-write :
    (next : ℕ → Option ℕ) (first : Option ℕ) (l : List ℕ) (n : ℕ) (v : Option ℕ)
    → times n l ≡ 0
    → Chain next first l
    → Chain (write next n v) first l
Chain-write next first [] n v out h = h
Chain-write next first (m ∷ l) n v out (e, h) = elim (Bool-cases (m == n)) [
  | inl same ↦ absurd (ground arith)
  | inr other ↦
      let other' : (n == m) ≡ false = ground arith in
      let rest = Chain-write next (next m) l n v (ground arith) h in (e, rw (other') rest)
]
