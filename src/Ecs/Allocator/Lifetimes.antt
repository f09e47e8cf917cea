-- ===== src/Ecs/Allocator/Lifetimes.antt =====
-- The entities of entity.hpp from their `create` to their `destroy`, over any row of calls of any
-- threads.
use structured_chaos.Prelude.{
  ℕ, ◌+◌, ◌^◌, ◌<◌, ◌≡◌, ◌≢◌, refl, sym, ap, true, false, List, [], ◌∷◌, ◌++◌, none, some, ◌==◌,
  if◌then◌else◌, arith, All, All-map, All-append, length, total-write, total_zero,
}
use structured_chaos.Ecs.Entity.{index_of, page_of}
use structured_chaos.Ecs.Allocator.{
  Allocator, created, no_index_left, area_limit, start_of, new_area, init, create, destroy, find,
  valid,
}
use structured_chaos.Ecs.Allocator.Weights.{at, waiting, pages-at, place_weight}
use structured_chaos.Ecs.Allocator.Invariant.{Current, Past, Inv, index_weight}
use structured_chaos.Ecs.Allocator.Creating.{with_new, create-Inv, new_area-weight}
use structured_chaos.Ecs.Allocator.Full.{create-Inv_full}
use structured_chaos.Ecs.Allocator.Starts.{init-TablesOk}
use structured_chaos.Ecs.Allocator.Destroying.{destroy-Inv, alone, index_weight-zero}

-- Calls of an allocator, with the entities that exist and those that were destroyed since it was made.
-- destroy is called for an entity that exists, and fewer than 2 ^ 32 entities are destroyed.
pub data Reach (page_bits : ℕ) : Allocator → List ℕ → List ℕ → Type 0 where
  started : Reach page_bits (init page_bits) [] []
  creates :
      {s : Allocator} {living ended : List ℕ} (thread number : ℕ)
      → Reach page_bits s living ended
      → Reach page_bits
          (create thread number s).1
          (with_new (create thread number s).0 living)
          ended
  destroys :
      {s : Allocator} {ended : List ℕ} (xs : List ℕ) (e : ℕ) (ys : List ℕ)
      → length ended + 1 < 2 ^ 32
      → Reach page_bits s (xs ++ e ∷ ys) ended
      → Reach page_bits (destroy e s) (xs ++ ys) (e ∷ ended)

few_ended :
    {page_bits : ℕ} {s : Allocator} {living ended : List ℕ}
    → Reach page_bits s living ended
    → length ended < 2 ^ 32
few_ended started = omega arith
few_ended (creates thread number r) = few_ended r
few_ended (destroys xs e ys h r) = omega (arith, h)

init-Inv : (page_bits : ℕ) → Inv (init page_bits) [] []
unfolding init
init-Inv page_bits =
    let start = new_area (start_of 0) in
    record {
      tables = init-TablesOk page_bits;
      balance = λ w. omega (
        arith,
        total-write (place_weight w) area_limit (λ _. none) 0 (some start) (omega arith),
        total_zero (place_weight w) area_limit (λ _. none) (λ _. refl),
        new_area-weight w (start_of 0),
      );
      current = tt;
      past = tt;
      few = λ i. omega arith;
    }

-- Every allocator that calls can lead to.
pub Reach-Inv :
    {page_bits : ℕ} {s : Allocator} {living ended : List ℕ}
    → Reach page_bits s living ended
    → Inv s living ended
Reach-Inv {page_bits} started = init-Inv page_bits
Reach-Inv (creates {s} {living} {ended} thread number r) =
    create-Inv thread number s living ended (Reach-Inv r) (few_ended r)
Reach-Inv (destroys {s} {ended} xs e ys h r) = destroy-Inv s xs ys ended e (Reach-Inv r) h

valid_of_Current : (s : Allocator) (e : ℕ) → Current s.owners s.generations e → valid e s ≡ true
unfolding valid find
valid_of_Current s e c = ground (arith, c.same, c.owned)

invalid_of_Past : (s : Allocator) (e : ℕ) → Past s.owners s.generations e → valid e s ≡ false
unfolding valid find
invalid_of_Past s e p = ground (arith, p.older, p.owned)

-- Each entity that was made and not destroyed is valid, in an allocator that calls of create and
-- destroy by any threads led to, where each entity existed when it was destroyed and fewer than
-- 2^32 were.
pub living_valid :
    {page_bits : ℕ} {s : Allocator} {living ended : List ℕ}
    → Reach page_bits s living ended
    → All (λ e. valid e s ≡ true) living
living_valid {s = s} {living} r = All-map (valid_of_Current s) living (Reach-Inv r).current

-- Each entity that was destroyed is invalid, also when its index was handed out again, in an
-- allocator that calls of create and destroy by any threads led to, where each entity existed
-- when it was destroyed and fewer than 2^32 were.
pub ended_invalid :
    {page_bits : ℕ} {s : Allocator} {living ended : List ℕ}
    → Reach page_bits s living ended
    → All (λ e. valid e s ≡ false) ended
ended_invalid {s = s} {ended = ended} r = All-map (invalid_of_Past s) ended (Reach-Inv r).past

-- In every allocator that calls of create and destroy by any threads can lead to, an entity that
-- exists shares its index with no other one that exists, if fewer than 2^32 entities were
-- destroyed and each existed when it was.
pub living_distinct :
    {page_bits : ℕ} {s : Allocator} {ended : List ℕ} (xs : List ℕ) (e : ℕ) (ys : List ℕ)
    → Reach page_bits s (xs ++ e ∷ ys) ended
    → All (λ other. index_of e ≢ index_of other) (xs ++ ys)
living_distinct {s = s} {ended} xs e ys r =
    let a = alone s xs ys ended e (Reach-Inv r) in
    All-append (λ other. index_of e ≢ index_of other) xs ys (index_weight-zero (index_of e) xs a.1)
      (index_weight-zero (index_of e) ys a.2)

-- An index of a page that was handed out is there exactly once, either as the index of an entity
-- that exists or in one share or free list, and an index of another page nowhere, in an allocator
-- that calls of create and destroy by any threads led to, where each entity existed when it was
-- destroyed and fewer than 2^32 were.
pub all_accounted :
    {page_bits : ℕ} {s : Allocator} {living ended : List ℕ} (i : ℕ)
    → Reach page_bits s living ended
    → waiting (at i) s + index_weight (at i) living ≡ (if s.owners (page_of i) == 0 then 0 else 1)
all_accounted {s = s} i r =
    let v = Reach-Inv r in
    omega (arith, v.balance (at i), pages-at i s.order, v.tables.paged (page_of i))

-- The entity that create makes is none of those that exist or were destroyed, and it is valid, in
-- an allocator that calls of create and destroy by any threads led to, where each entity existed
-- when it was destroyed and fewer than 2^32 were.
pub create_fresh :
    {page_bits : ℕ} {s : Allocator} {living ended : List ℕ} (thread number : ℕ) {e : ℕ}
    → Reach page_bits s living ended
    → (create thread number s).0 ≡ created e
    → All (λ old. e ≢ old) living
      × All (λ old. e ≢ old) ended
      × (valid e (create thread number s).1 ≡ true)
create_fresh {page_bits} {s} {living} {ended} thread number {e} r h =
    let after : Reach page_bits (create thread number s).1 (e ∷ living) ended =
      rw (ap (λ c. with_new c living) (sym h)) (creates thread number r) in
    let ok = living_valid after in
    (
      All-map (λ old ne same. ne (ap index_of same)) living (living_distinct [] e living after),
      All-map (λ old no same. cc) ended (ended_invalid after),
      ok.0,
    )

-- create reports that no index is left only if every page below the limit was handed out, in an
-- allocator that calls of create and destroy by any threads led to, where each entity existed
-- when it was destroyed and fewer than 2^32 were.
pub create_full :
    {page_bits : ℕ} {s : Allocator} {living ended : List ℕ} (thread number : ℕ)
    → Reach page_bits s living ended
    → (create thread number s).0 ≡ no_index_left
    → (p : ℕ) → p < s.page_limit
    → s.owners p ≢ 0
create_full {s = s} {living} {ended} thread number r h =
    create-Inv_full thread number s living ended (Reach-Inv r) h
