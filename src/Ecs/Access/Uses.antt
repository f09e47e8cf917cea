-- ===== src/Ecs/Access/Uses.antt =====
-- What the lists of accesses in scheduler.hpp say of an index, and what `addTo`, `merge` and
-- `overlap` make of it.
use structured_chaos.Prelude.{
  ℕ, Bool, true, false, ◌&&◌, ◌||◌, List, [], ◌∷◌, ◌≡◌, ◌↔◌, inl, inr, ◌==◌, arith, Bool-cases,
}
use structured_chaos.Ecs.Access.{Access, add_to, add_all, meets, overlap}

-- The index stands in the list; it stands there as written.
pub uses : ℕ → List Access → Bool
uses i [] = false
uses i (a ∷ rest) = (a.index == i) || uses i rest

pub writes : ℕ → List Access → Bool
writes i [] = false
writes i (a ∷ rest) = ((a.index == i) && a.write) || writes i rest

pub uses_of_writes : (i : ℕ) (l : List Access) → writes i l ≡ true → uses i l ≡ true
unfolding uses writes
uses_of_writes i [] h = ground arith
uses_of_writes i (a ∷ rest) h = ground (arith, uses_of_writes i rest)

pub uses-add_to :
    (l : List Access) (i j : ℕ) (w : Bool) → uses j (add_to l i w) ≡ ((i == j) || uses j l)
unfolding uses add_to
uses-add_to [] i j w = ground arith
uses-add_to (a ∷ rest) i j w = ground (arith, uses-add_to rest i j w)

pub writes-add_to :
    (l : List Access) (i j : ℕ) (w : Bool)
    → writes j (add_to l i w) ≡ (((i == j) && w) || writes j l)
unfolding writes add_to
writes-add_to [] i j w = ground arith
writes-add_to (a ∷ rest) i j w = ground (arith, writes-add_to rest i j w)

pub uses-add_all :
    (mine other : List Access) (j : ℕ) → uses j (add_all mine other) ≡ (uses j mine || uses j other)
unfolding add_all uses
uses-add_all mine [] j = ground arith
uses-add_all mine (a ∷ rest) j =
    ground
      (arith, uses-add_all (add_to mine a.index a.write) rest j, uses-add_to mine a.index j a.write)

pub writes-add_all :
    (mine other : List Access) (j : ℕ)
    → writes j (add_all mine other) ≡ (writes j mine || writes j other)
unfolding add_all writes
writes-add_all mine [] j = ground arith
writes-add_all mine (a ∷ rest) j = ground (
  arith,
  writes-add_all (add_to mine a.index a.write) rest j,
  writes-add_to mine a.index j a.write,
)

-- Both use the index, and one of them writes it.
abbrev pub Clash : ℕ → List Access → List Access → Type 0
Clash i mine theirs =
    (uses i mine ≡ true) × (uses i theirs ≡ true) × ((writes i mine || writes i theirs) ≡ true)

meets-Clash :
    (one : Access) (theirs : List Access)
    → meets one theirs ≡ true
    → (uses one.index theirs ≡ true) × ((one.write || writes one.index theirs) ≡ true)
unfolding meets uses writes
meets-Clash one [] h = ground arith
meets-Clash one (other ∷ theirs) h = ground (arith, meets-Clash one theirs)

overlap-Clash :
    (mine theirs : List Access) → overlap mine theirs ≡ true → (i : ℕ) × Clash i mine theirs
unfolding overlap uses writes
overlap-Clash [] theirs h = absurd (ground arith)
overlap-Clash (one ∷ mine) theirs h = elim (Bool-cases (meets one theirs)) [
  | inl met ↦ (one.index, ground (arith, meets-Clash one theirs met))
  | inr apart ↦ let c = overlap-Clash mine theirs (ground arith) in (c.0, ground (arith, c.1))
]

Clash-meets :
    (one : Access) (theirs : List Access)
    → uses one.index theirs ≡ true
    → (one.write || writes one.index theirs) ≡ true
    → meets one theirs ≡ true
unfolding meets uses writes
Clash-meets one [] u w = ground arith
Clash-meets one (other ∷ theirs) u w =
    ground (arith, Clash-meets one theirs, uses_of_writes one.index theirs)

Clash-overlap :
    (i : ℕ) (mine theirs : List Access) → Clash i mine theirs → overlap mine theirs ≡ true
unfolding overlap uses writes
Clash-overlap i [] theirs c = ground arith
Clash-overlap i (one ∷ mine) theirs c =
    ground (arith, Clash-meets one theirs, Clash-overlap i mine theirs, uses_of_writes i mine)

-- The two loops find a clash exactly when there is one.
pub overlap_iff :
    (mine theirs : List Access) → (overlap mine theirs ≡ true) ↔ ((i : ℕ) × Clash i mine theirs)
overlap_iff mine theirs = (overlap-Clash mine theirs, λ c. Clash-overlap c.0 mine theirs c.1)
