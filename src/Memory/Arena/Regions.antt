-- ===== src/Memory/Arena/Regions.antt =====
-- Ranges of addresses in the blocks of monotonic_resource.hpp.
use structured_chaos.Prelude.{
  ℕ, ◌+◌, ◌≤◌, ◌≡◌, ◌⊎◌, refl, inl, inr, List, [], ◌∷◌, ◌++◌, ◌==◌, arith, All, Bool-cases,
}
use structured_chaos.Memory.Arena.{Block, Arena}
use structured_chaos.Memory.Arena.Threads.{Given, Apart, all_blocks}

-- The range from lo to hi lies in one of the blocks.
abbrev pub Inside : ℕ → ℕ → List Block → Type 0
Inside lo hi [] = ⊥
Inside lo hi (b ∷ bs) = ((b.ptr ≤ lo) × (hi ≤ b.ptr + b.size)) ⊎ Inside lo hi bs

abbrev pub Disjoint : Given → Given → Type 0
Disjoint g h = (g.address + g.bytes ≤ h.address) ⊎ (h.address + h.bytes ≤ g.address)

abbrev pub Separate : List Given → Type 0
Separate [] = Unit {0}
Separate (g ∷ gs) = All (Disjoint g) gs × Separate gs

pub Inside-append_left :
    (lo hi : ℕ) (bs cs : List Block) → Inside lo hi bs → Inside lo hi (bs ++ cs)
Inside-append_left lo hi [] cs h = absurd h
Inside-append_left lo hi (b ∷ bs) cs (inl h) = inl h
Inside-append_left lo hi (b ∷ bs) cs (inr h) = inr (Inside-append_left lo hi bs cs h)

pub Inside-last : (bs : List Block) (b : Block) → Inside b.ptr (b.ptr + b.size) (bs ++ (b ∷ []))
Inside-last [] b = inl (omega arith, omega arith)
Inside-last (c ∷ bs) b = inr (Inside-last bs b)

-- A smaller range lies in the same block.
pub Inside-narrow :
    (lo hi low high : ℕ) (bs : List Block)
    → lo ≤ low
    → high ≤ hi
    → Inside lo hi bs
    → Inside low high bs
Inside-narrow lo hi low high [] l h k = absurd k
Inside-narrow lo hi low high (b ∷ bs) l h (inl k) = inl (omega arith, omega arith)
Inside-narrow lo hi low high (b ∷ bs) l h (inr k) = inr (Inside-narrow lo hi low high bs l h k)

-- A block apart from all others is apart from what lies in them.
pub Inside-Apart :
    (ptr size lo hi : ℕ) (bs : List Block)
    → All (Apart ptr size) bs
    → Inside lo hi bs
    → (hi ≤ ptr) ⊎ (ptr + size ≤ lo)
Inside-Apart ptr size lo hi [] a k = absurd k
Inside-Apart ptr size lo hi (b ∷ bs) a (inl k) = let apart = a.0 in omega (arith, apart)
Inside-Apart ptr size lo hi (b ∷ bs) a (inr k) = Inside-Apart ptr size lo hi bs a.1 k

pub all_blocks-append :
    (a : Arena) (b : Block)
    → all_blocks (record a { blocks = a.blocks ++ (b ∷ []) }) ≡ all_blocks a ++ (b ∷ [])
all_blocks-append a b = elim (Bool-cases (a.initial.ptr == 0)) [
  | inl null ↦ rw (null) refl
  | inr there ↦ rw (there) refl
]
