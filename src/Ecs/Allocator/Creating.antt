-- ===== src/Ecs/Allocator/Creating.antt =====
-- `create` of entity.hpp keeps the invariant: the entity it makes is one more that exists.
use structured_chaos.Prelude.{
  ℕ, ◌+◌, ◌/◌, ◌^◌, ◌<◌, ◌≡◌, ◌≢◌, refl, sym, ap, ◌∙◌, inl, inr, List, ◌∷◌, none, some, ◌==◌, leb,
  if◌then◌else◌, arith, Bool-cases, Option-cases, write, All-map, length, total, total-write,
  total_zero,
}
use structured_chaos.Ecs.Entity.{index_of, generation_of, make_entity, make_entity_parts, page_of}
use structured_chaos.Ecs.FreeList.Counts.{empty_list-IsValid}
use structured_chaos.Ecs.Allocator.{
  Area, Allocator, Created, created, no_index_left, no_such_area, area_limit, start_of, new_area,
  empty_share, make_area, get_area, create_held, create, store, share_of,
}
use structured_chaos.Ecs.Allocator.Weights.{
  at, waiting, pages, pages-at, share_weight, place_weight, area_weight, share_count, store-waiting,
  share_of_lt, span_zero,
}
use structured_chaos.Ecs.Allocator.Invariant.{AreaOk, TablesOk, Inv, index_weight}
use structured_chaos.Ecs.Allocator.Making.{Taken, Outcome, taken, full, create_held_lem}
use structured_chaos.Ecs.Allocator.Tables.{
  put-TablesOk, AreaOk-put, Tables-TablesOk, Tables-generations, Tables-few, Tables-shares,
}

pub new_area-weight : (w : ℕ → ℕ) (start : ℕ) → area_weight w (new_area start) ≡ 0
new_area-weight w start = omega (
  arith,
  total_zero (share_weight w) share_count (λ _. empty_share) (λ _. omega (arith, span_zero w 0)),
)

make_area-Inv :
    (number : ℕ) (s : Allocator) (living ended : List ℕ)
    → number < area_limit
    → s.areas number ≡ none
    → Inv s living ended
    → Inv (make_area number s).1 living ended
make_area-Inv number s living ended n e v =
    let made = new_area (start_of number / 2 ^ s.start_shift) in
    let many = if leb s.area_count number then number + 1 else s.area_count in
    let ok : AreaOk s.page_limit s.generations made = record {
      free = empty_list-IsValid;
      shares = λ t l. record {
        ordered = omega arith;
        short = omega arith;
        zeros = λ i h k. absurd (omega arith);
      };
      cursor = v.tables.starts number;
    } in
    record {
      tables =
          put-TablesOk number made s many (ground arith) (ground (arith, v.tables.few_areas))
            (ground arith) v.tables ok;
      balance = λ w. omega (
        arith,
        total-write (place_weight w) area_limit s.areas number (some made) n,
        ap (place_weight w) e,
        new_area-weight w (start_of number / 2 ^ s.start_shift),
        v.balance w,
      );
      current = v.current;
      past = v.past;
      few = v.few;
    }

pub get_area-Inv :
    (number : ℕ) (s : Allocator) (living ended : List ℕ)
    → number < area_limit
    → Inv s living ended
    → Inv (get_area number s).1 living ended
      × ((get_area number s).1.areas number ≡ some (get_area number s).0)
unfolding get_area
get_area-Inv number s living ended n v = elim (Option-cases (s.areas number)) [
  | inl e ↦ rw (e, get_area) (make_area-Inv number s living ended n e v, ground arith)
  | inr (a, e) ↦ rw (e, get_area) (v, e)
]

-- The entities that exist after a call of `create`.
abbrev pub with_new : Created → List ℕ → List ℕ
with_new (created e) living = e ∷ living
with_new no_index_left living = living
with_new no_such_area living = living

module _ {number thread : ℕ} {area : Area} {s : Allocator} {living ended : List ℕ}
    {r : Created × Allocator} (n : number < area_limit) (here : s.areas number ≡ some area)
    (v : Inv s living ended)
    (t : Taken number thread area (area.shares (share_of thread)) s r) where
  unfoldable after : Allocator
  after = store number thread t.left_share (record t.left_area { free = t.left_free }) t.left

  after-TablesOk : TablesOk after
  unfolding after
  after-TablesOk =
      let ok = Tables-TablesOk t.tables v.tables n here in
      put-TablesOk number
        (record t.left_area {
          free = t.left_free;
          shares = write t.left_area.shares (share_of thread) t.left_share;
        })
        t.left t.left.area_count (ok.0.area_below number area (ap (λ f. f number) ok.2 ∙ here))
        ok.0.few_areas (omega arith) ok.0
        (AreaOk-put t.left.page_limit (share_of thread) t.left.generations t.left_free t.left_share
          t.left_area ok.1 t.free_ok t.share_ok)

  after-balance :
      (w : ℕ → ℕ) → waiting w after + w t.index + index_weight w living ≡ pages w after.order
  unfolding after
  after-balance w =
      let areas = (Tables-TablesOk t.tables v.tables n here).2 in
      let shares = Tables-shares t.tables in
      omega (
        arith,
        store-waiting w number thread t.left_share (record t.left_area { free = t.left_free })
            t.left n,
        ap (λ f. place_weight w (f number)) areas,
        ap (λ f. total (place_weight w) area_limit f) areas,
        ap (place_weight w) here,
        ap (λ f. share_weight w (f (share_of thread))) shares,
        ap (λ f. total (share_weight w) share_count f) shares,
        t.balance w,
        v.balance w,
      )

  -- The page of the index was handed out, and no other entity has the index.
  index_owned :
      (after.owners (page_of t.index) ≢ 0)
      × (waiting (at t.index) after ≡ 0)
      × (index_weight (at t.index) living ≡ 0)
  index_owned =
      let own : at t.index t.index ≡ 1 = ground arith in
      let b = after-balance (at t.index) in
      let p = pages-at t.index after.order in
      let q = after-TablesOk.paged (page_of t.index) in
      elim (Bool-cases (after.owners (page_of t.index) == 0)) [
        | inl unowned ↦
            absurd (omega (arith, own, b, p, q, ap {B = ℕ} (λ b. if b then 0 else 1) unowned))
        | inr owned ↦
            let one : pages (at t.index) after.order ≡ 1 =
              p ∙ q ∙ ap {B = ℕ} (λ b. if b then 0 else 1) owned in
            (ground arith, omega (arith, own, b, one), omega (arith, own, b, one))
      ]

  abbrev entity : ℕ
  entity = make_entity t.index (t.left.generations t.index)

  entity_parts :
      length ended < 2 ^ 32
      → (index_of entity ≡ t.index) × (generation_of entity ≡ t.left.generations t.index)
  entity_parts h =
      let within = after-TablesOk.page_within (page_of t.index) index_owned.0 in
      let few = Tables-few t.tables t.index in
      let p =
        make_entity_parts t.index (t.left.generations t.index)
          (omega (arith, within, after-TablesOk.limit)) (omega (arith, few, v.few t.index)) in
      (p.0, p.1)

  after-Inv : length ended < 2 ^ 32 → Inv after (entity ∷ living) ended
  unfolding after
  after-Inv h =
      let parts = entity_parts h in
      record {
        tables = after-TablesOk;
        balance = λ w. omega (arith, after-balance w, ap w parts.0);
        current = (
          record {
            same = parts.1 ∙ ap t.left.generations (sym parts.0);
            owned = rw (parts.0) index_owned.0;
          },
          All-map
              (λ e c.
                let g = Tables-generations t.tables (index_of e) c.owned in
                record { same = c.same ∙ sym g.0; owned = rw (g.1) c.owned })
              living v.current,
        );
        past =
            All-map
              (λ e c.
                let g = Tables-generations t.tables (index_of e) c.owned in
                record { older = rw (g.0) c.older; owned = rw (g.1) c.owned })
              ended v.past;
        few = λ i. omega (arith, v.few i, Tables-few t.tables i);
      }

taken-Inv :
    {number thread : ℕ} {area : Area} {s : Allocator} {living ended : List ℕ}
    (r : Created × Allocator)
    → number < area_limit
    → s.areas number ≡ some area
    → Inv s living ended
    → length ended < 2 ^ 32
    → Outcome number thread area (area.shares (share_of thread)) s r
    → Inv r.1 (with_new r.0 living) ended
unfolding after
taken-Inv {living = living} {ended} r n here v h (taken t) = rw (t.result) (after-Inv n here v t h)
taken-Inv _ n here v h (full _ _ _ _) = v

pub create-Inv :
    (thread number : ℕ) (s : Allocator) (living ended : List ℕ)
    → Inv s living ended
    → length ended < 2 ^ 32
    → Inv (create thread number s).1 (with_new (create thread number s).0 living) ended
unfolding create
create-Inv thread number s living ended v h = elim (Bool-cases (leb area_limit number)) [
  | inl beyond ↦ rw (beyond, create) v
  | inr within ↦
      let n : number < area_limit = ground arith in
      let g = get_area-Inv number s living ended n v in
      let found = get_area number s in
      let ok = g.0.tables.areas_ok number found.0 g.1 in
      let share = found.0.shares (share_of thread) in
      rw (within, create)
        (taken-Inv (create_held number thread share.held found.0 share found.1) n g.1 g.0 h (
          create_held_lem number thread share.held found.0 share found.1 refl ok.free ok.cursor
            (ok.shares (share_of thread) (share_of_lt thread))))
]
