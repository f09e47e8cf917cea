-- ===== src/Ecs/Allocator/Destroying.antt =====
-- `destroy` of entity.hpp keeps the invariant: the entity is gone, and its index waits again.
use structured_chaos.Prelude.{
  ℕ, ◌+◌, ◌-◌, ◌%◌, ◌^◌, ◌≤◌, ◌<◌, ◌≡◌, ◌≢◌, ap, inl, inr, List, [], ◌∷◌, ◌++◌, some, ◌==◌, arith,
  Bool-cases, write, All, All-map, All-split, All-both, All-append, length, total, total-write,
}
use structured_chaos.Ecs.Entity.{index_of, page_of}
use structured_chaos.Ecs.FreeList.{give}
use structured_chaos.Ecs.FreeList.Counts.{count, count-append, give-count}
use structured_chaos.Ecs.Allocator.{Area, Allocator, area_limit, destroy}
use structured_chaos.Ecs.Allocator.Weights.{
  at, waiting, pages, pages-at, place_weight, share_count, share-waiting, span-at_in,
}
use structured_chaos.Ecs.Allocator.Invariant.{
  ShareOk, AreaOk, TablesOk, Current, Past, Inv, index_weight,
}
use structured_chaos.Ecs.Allocator.Tables.{put-TablesOk}

-- No entity has an index that weighs nothing.
pub index_weight-zero :
    (i : ℕ) (es : List ℕ) → index_weight (at i) es ≡ 0 → All (λ e. i ≢ index_of e) es
index_weight-zero i [] h = tt
index_weight-zero i (e ∷ es) h = (ground arith, index_weight-zero i es (omega arith))

module _ (s : Allocator) (xs ys ended : List ℕ) (e : ℕ) (v : Inv s (xs ++ e ∷ ys) ended) where
  e-Current : Current s.owners s.generations e
  e-Current = (All-split (Current s.owners s.generations) xs (e ∷ ys) v.current).1.0

  -- It is the only entity with its index, and the index does not wait.
  pub alone :
      (waiting (at (index_of e)) s ≡ 0)
      × (index_weight (at (index_of e)) xs ≡ 0)
      × (index_weight (at (index_of e)) ys ≡ 0)
  alone =
      let i = index_of e in
      let own : at i i ≡ 1 = ground arith in
      let b = v.balance (at i) in
      let p = pages-at i s.order in
      let q = v.tables.paged (page_of i) in
      let c = count-append (λ x. at i (index_of x)) xs (e ∷ ys) in
      let o = e-Current.owned in
      let most : count (at (page_of i)) s.order ≤ 1 = ground arith in
      (
        omega (arith, own, b, p, c, most),
        omega (arith, own, b, p, c, most),
        omega (arith, own, b, p, c, most),
      )

  unfoldable number : ℕ
  number = s.owners (page_of (index_of e)) - 1

  unfoldable bumped : ℕ → ℕ
  bumped = write s.generations (index_of e) ((s.generations (index_of e) + 1) % 2 ^ 32)

  -- The index is in no share, so the generations of those stay zero.
  ShareOk-bumped :
      (n t : ℕ) (a : Area) → s.areas n ≡ some a → t < share_count → ShareOk bumped (a.shares t)
  unfolding bumped
  ShareOk-bumped n t a h l =
      let ok = (v.tables.areas_ok n a h).shares t l in
      record {
        ordered = ok.ordered;
        short = ok.short;
        zeros = λ i above below. elim (Bool-cases (index_of e == i)) [
          | inl same ↦
              let sh = a.shares t in
              let inside =
                share-waiting (at i) n t a s
                  (omega (arith, v.tables.area_below n a h, v.tables.few_areas)) l h in
              let there = span-at_in i sh.next (sh.end - sh.next) above (omega arith) in
              let eq : index_of e ≡ i = ground arith in
              absurd (omega (arith, inside, there, alone.0, ap (λ j. waiting (at j) s) eq))
          | inr other ↦ rw (other) (ok.zeros i above below)
        ];
      }

  owner_lt : number < area_limit
  unfolding number
  owner_lt =
      omega (arith, (v.tables.owner_area (page_of (index_of e)) e-Current.owned).0, e-Current.owned)

  -- The tables with the new generation are in order.
  bumped-TablesOk : TablesOk (record s { generations = bumped })
  bumped-TablesOk = record {
    areas_ok = λ n a h.
        let ok = v.tables.areas_ok n a h in
        record { free = ok.free; shares = λ t l. ShareOk-bumped n t a h l; cursor = ok.cursor };
    area_below = v.tables.area_below;
    few_areas = v.tables.few_areas;
    owner_area = v.tables.owner_area;
    page_within = v.tables.page_within;
    limit = v.tables.limit;
    starts = v.tables.starts;
    paged = v.tables.paged;
  }

  module _ (area : Area) (here : s.areas number ≡ some area) where
    unfoldable given_back : Area
    given_back = record area { free = give (index_of e) area.free }

    given_back-AreaOk : AreaOk s.page_limit bumped given_back
    unfolding given_back
    given_back-AreaOk =
        let ok = bumped-TablesOk.areas_ok number area here in
        record {
          free = (give-count (λ _. 0) (index_of e) area.free ok.free).1;
          shares = ok.shares;
          cursor = ok.cursor;
        }

    given_back-balance :
        (w : ℕ → ℕ)
        → total (place_weight w) area_limit (write s.areas number (some given_back))
            + index_weight w (xs ++ ys)
          ≡ pages w s.order
    unfolding given_back
    given_back-balance w = omega (
      arith,
      total-write (place_weight w) area_limit s.areas number (some given_back) owner_lt,
      ap (place_weight w) here,
      (give-count w (index_of e) area.free (v.tables.areas_ok number area here).free).0,
      v.balance w,
      count-append (λ x. w (index_of x)) xs (e ∷ ys),
      count-append (λ x. w (index_of x)) xs ys,
    )

  -- The entities that are left keep their generations.
  others-Current :
      (es : List ℕ)
      → index_weight (at (index_of e)) es ≡ 0
      → All (Current s.owners s.generations) es
      → All (Current s.owners bumped) es
  unfolding bumped
  others-Current es h c =
      All-map
        (λ x b. record {
          same = elim (Bool-cases (index_of e == index_of x)) [
            | inl q ↦ absurd (b.0 (ground arith))
            | inr q ↦ rw (q) b.1.same
          ];
          owned = b.1.owned;
        })
        es
        (All-both (λ x. index_of e ≢ index_of x) (Current s.owners s.generations) es
          (index_weight-zero (index_of e) es h) c)

  bumped_up :
      length ended + 1 < 2 ^ 32
      → (i : ℕ) → (s.generations i ≤ bumped i) × (bumped i ≤ length ended + 1)
  unfolding bumped
  bumped_up h i = let few = v.few i in let few_e = v.few (index_of e) in ground arith

  bumped_self : length ended + 1 < 2 ^ 32 → bumped (index_of e) ≡ s.generations (index_of e) + 1
  unfolding bumped
  bumped_self h = let few = v.few (index_of e) in ground arith

  bumped-Past : length ended + 1 < 2 ^ 32 → All (Past s.owners bumped) (e ∷ ended)
  bumped-Past h = (
    record { older = omega (arith, bumped_self h, e-Current.same); owned = e-Current.owned },
    All-map
        (λ x p. record {
          older = omega (arith, p.older, (bumped_up h (index_of x)).0);
          owned = p.owned;
        })
        ended v.past,
  )

  pub destroy-Inv : length ended + 1 < 2 ^ 32 → Inv (destroy e s) (xs ++ ys) (e ∷ ended)
  unfolding destroy number bumped given_back
  destroy-Inv h =
      let found = (v.tables.owner_area (page_of (index_of e)) e-Current.owned) in
      let c = All-split (Current s.owners s.generations) xs (e ∷ ys) v.current in
      let inv : Inv
          (record s {
            generations = bumped;
            areas = write s.areas number (some (given_back found.1 found.2));
          })
          (xs ++ ys) (e ∷ ended) =
        record {
          tables =
              put-TablesOk number (given_back found.1 found.2) (record s { generations = bumped })
                s.area_count (v.tables.area_below number found.1 found.2) v.tables.few_areas
                (omega arith) bumped-TablesOk (given_back-AreaOk found.1 found.2);
          balance = given_back-balance found.1 found.2;
          current =
              All-append (Current s.owners bumped) xs ys (others-Current xs alone.1 c.0)
                (others-Current ys alone.2 c.1.1);
          past = bumped-Past h;
          few = λ i. omega (arith, (bumped_up h i).1);
        } in
      rw (found.2, destroy) inv
