-- ===== src/Ecs/Allocator/Alive.antt =====
-- `alive` of entity.hpp: the number of entities, worked out from the pages, the shares and the free lists.
use structured_chaos.Prelude.{
  ℕ, zero, suc, ◌+◌, ◌-◌, ◌*◌, ◌%◌, ◌^◌, ◌≤◌, ◌<◌, ◌≡◌, refl, ap, ◌∙◌, inl, inr, List, [], ◌∷◌,
  Option, none, some, arith, take, length, word, add_size, sub_size, total, total_none, total_one,
  total_beyond, Option-cases,
}
use structured_chaos.Ecs.Entity.{page_size}
use structured_chaos.Ecs.FreeList.{FreeList}
use structured_chaos.Ecs.FreeList.Counts.{count, count_chunks, count_free, count-length}
use structured_chaos.Ecs.Allocator.{Share, Area, Allocator, area_limit}
use structured_chaos.Ecs.Allocator.Weights.{
  span_length, share_weight, share_count, place_weight, pages,
}
use structured_chaos.Ecs.Allocator.Invariant.{ShareOk, AreaOk, TablesOk, index_weight}
use structured_chaos.Ecs.Allocator.Lifetimes.{Reach, Reach-Inv}

-- The loop of `FreeList::size`, from its end.
unfoldable pub lengths : List (List ℕ) → ℕ
lengths [] = 0
lengths (c ∷ cs) = add_size (length c) (lengths cs)

-- `FreeList::size`
abbrev pub size : FreeList → ℕ
size f = lengths (take f.left f.chunks)

-- `size_t{share.end - share.next} + share.left`
abbrev pub share_left : Share → ℕ
share_left s = add_size ((s.end + 2 ^ 32 - s.next) % 2 ^ 32) (length s.held)

-- The loop over the shares of an area, for the first n of them.
unfoldable pub less_shares : ℕ → (ℕ → Share) → ℕ → ℕ
less_shares zero shares count = count
less_shares (suc n) shares count = sub_size (less_shares n shares count) (share_left (shares n))

-- The body of the loop over the areas.
unfoldable pub less_area : Option Area → ℕ → ℕ
unfolding less_shares lengths
less_area none count = count
less_area (some a) count = sub_size (less_shares share_count a.shares count) (size a.free)

-- The loop over the areas, for the first n of them.
unfoldable pub less_areas : ℕ → (ℕ → Option Area) → ℕ → ℕ
unfolding less_area
less_areas zero areas count = count
less_areas (suc n) areas count = less_area (areas n) (less_areas n areas count)

-- `alive`
unfoldable pub alive : Allocator → ℕ
unfolding less_areas
alive s = less_areas s.area_count s.areas (length s.order * page_size % word)

-- 1 for every index.
abbrev each : ℕ → ℕ
each i = 1

sub_size_lem : (x b : ℕ) → b ≤ x → sub_size (x % word) (b % word) ≡ (x - b) % word
sub_size_lem x b h = omega arith

lengths_lem : (cs : List (List ℕ)) → lengths cs ≡ count_chunks each cs % word
unfolding lengths
lengths_lem [] = refl
lengths_lem (c ∷ cs) = omega (arith, lengths_lem cs, count-length c)

share_left_lem : (g : ℕ → ℕ) (s : Share) → ShareOk g s → share_left s ≡ share_weight each s % word
share_left_lem g s ok =
    omega (arith, ok.ordered, ok.short, span_length s.next (s.end - s.next), count-length s.held)

less_shares_lem :
    (g : ℕ → ℕ) (n : ℕ) (shares : ℕ → Share) (x : ℕ)
    → ((t : ℕ) → t < n → ShareOk g (shares t))
    → total (share_weight each) n shares ≤ x
    → less_shares n shares (x % word) ≡ (x - total (share_weight each) n shares) % word
unfolding less_shares
less_shares_lem g zero shares x ok h = omega (arith, total_none (share_weight each) shares)
less_shares_lem g (suc n) shares x ok h =
    let step = total_one (share_weight each) n shares in
    let rest = less_shares_lem g n shares x (λ t l. ok t (omega arith)) (omega (arith, step, h)) in
    ap (λ y. sub_size y (share_left (shares n))) rest
    ∙ ap (sub_size ((x - total (share_weight each) n shares) % word))
        (share_left_lem g (shares n) (ok n (omega arith)))
    ∙ sub_size_lem (x - total (share_weight each) n shares) (share_weight each (shares n))
        (omega (arith, step, h))
    ∙ ap (λ y. y % word) (omega (arith, step))

less_area_lem :
    (g : ℕ → ℕ) (limit : ℕ) (a : Option Area) (x : ℕ)
    → ((area : Area) → a ≡ some area → AreaOk limit g area)
    → place_weight each a ≤ x
    → less_area a (x % word) ≡ (x - place_weight each a) % word
unfolding less_area
less_area_lem g limit none x ok h = omega arith
less_area_lem g limit (some a) x ok h =
    let shares = total (share_weight each) share_count a.shares in
    let free = count_free each a.free in
    ap (λ y. sub_size y (size a.free))
      (less_shares_lem g share_count a.shares x (ok a refl).shares (omega (arith, h)))
    ∙ ap (sub_size ((x - shares) % word)) (lengths_lem (take a.free.left a.free.chunks))
    ∙ sub_size_lem (x - shares) free (omega (arith, h))
    ∙ ap (λ y. y % word) (omega arith)

less_areas_lem :
    (s : Allocator) (n x : ℕ)
    → TablesOk s
    → total (place_weight each) n s.areas ≤ x
    → less_areas n s.areas (x % word) ≡ (x - total (place_weight each) n s.areas) % word
unfolding less_areas
less_areas_lem s zero x v h = omega (arith, total_none (place_weight each) s.areas)
less_areas_lem s (suc n) x v h =
    let before = total (place_weight each) n s.areas in
    let step = total_one (place_weight each) n s.areas in
    ap (less_area (s.areas n)) (less_areas_lem s n x v (omega (arith, step, h)))
    ∙ less_area_lem s.generations s.page_limit (s.areas n) (x - before) (v.areas_ok n)
        (omega (arith, step, h))
    ∙ ap (λ y. y % word) (omega (arith, step))

pages-length : (ps : List ℕ) → pages each ps ≡ length ps * page_size
pages-length [] = omega arith
pages-length (p ∷ ps) = omega (arith, pages-length ps, span_length (p * page_size) page_size)

-- No area has a number from the count on.
no_area_beyond :
    (s : Allocator) → TablesOk s → (i : ℕ) → s.area_count ≤ i → place_weight each (s.areas i) ≡ 0
no_area_beyond s v i h = elim (Option-cases (s.areas i)) [
  | inl e ↦ ap (place_weight each) e
  | inr (a, e) ↦ absurd (omega (arith, v.area_below i a e, h))
]

-- alive is the number of entities that exist, if that is below 2^64, in an allocator that calls
-- of create and destroy by any threads led to, where each entity existed when it was destroyed
-- and fewer than 2^32 were.
pub alive-length :
    {page_bits : ℕ} {s : Allocator} {living ended : List ℕ}
    → Reach page_bits s living ended
    → length living < word
    → alive s ≡ length living
unfolding alive
alive-length {s = s} {living} r few =
    let v = Reach-Inv r in
    let all =
      total_beyond (place_weight each) s.area_count area_limit s.areas v.tables.few_areas
        (no_area_beyond s v.tables) in
    let b = v.balance each in
    let p = pages-length s.order in
    let entities : index_weight each living ≡ length living = count-length living in
    let below : total (place_weight each) s.area_count s.areas ≤ length s.order * page_size =
      omega (arith, all, b, p) in
    less_areas_lem s s.area_count (length s.order * page_size) v.tables below
    ∙ omega (arith, all, b, p, entities, few)
