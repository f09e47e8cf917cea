-- ===== src/Ecs/Allocator/Tables.antt =====
-- The tables of entity.hpp stay in order when a page is handed out, an area is made and an area is
-- written back.
use structured_chaos.Prelude.{
  ℕ, ◌+◌, ◌-◌, ◌%◌, ◌^◌, ◌≤◌, ◌<◌, ◌≡◌, ◌≢◌, refl, sym, ap, ◌∙◌, inl, inr, [], ◌∷◌, some, ◌==◌,
  if◌then◌else◌, arith, Bool-cases, write, eq_of_some,
}
use structured_chaos.Ecs.Entity.{page_of}
use structured_chaos.Ecs.FreeList.{FreeList}
use structured_chaos.Ecs.FreeList.Counts.{IsValid, count-append}
use structured_chaos.Ecs.Allocator.{Share, Area, Allocator, area_limit, hand_out, zero_page}
use structured_chaos.Ecs.Allocator.Weights.{at}
use structured_chaos.Ecs.Allocator.Invariant.{ShareOk, AreaOk, TablesOk}
use structured_chaos.Ecs.Allocator.Making.{Tables, as_they_were, with_page}

-- Zeroing more generations keeps a share and an area in order.
ShareOk-zero_page :
    (g : ℕ → ℕ) (page : ℕ) (sh : Share) → ShareOk g sh → ShareOk (zero_page g page) sh
ShareOk-zero_page g page sh ok = record {
  ordered = ok.ordered;
  short = ok.short;
  zeros = λ i h l. elim (Bool-cases (page_of i == page)) [
    | inl e ↦ rw (e) refl
    | inr e ↦ rw (e) (ok.zeros i h l)
  ];
}

AreaOk-zero_page :
    (limit : ℕ) (g : ℕ → ℕ) (page : ℕ) (a : Area)
    → AreaOk limit g a
    → AreaOk limit (zero_page g page) a
AreaOk-zero_page limit g page a ok = record {
  free = ok.free;
  shares = λ t l. ShareOk-zero_page g page (a.shares t) (ok.shares t l);
  cursor = ok.cursor;
}

the_place : (number : ℕ) → number < area_limit → (number + 1) % 2 ^ 16 - 1 ≡ number
the_place number h = omega arith

pub hand_out-TablesOk :
    (number page : ℕ) (area : Area) (s : Allocator)
    → TablesOk s
    → number < area_limit
    → s.areas number ≡ some area
    → page < s.page_limit
    → s.owners page ≡ 0
    → TablesOk (hand_out page number area s).1
      × AreaOk s.page_limit (zero_page s.generations page) (hand_out page number area s).0
hand_out-TablesOk number page area s v n e lt free =
    let more : (p : ℕ)
        → (if s.owners p == 0 then 0 else 1) + at p page
          ≡ (if (hand_out page number area s).1.owners p == 0 then 0 else 1) =
      λ p. ground arith in
    (
      record {
        areas_ok = λ n a h. AreaOk-zero_page s.page_limit s.generations page a (v.areas_ok n a h);
        area_below = v.area_below;
        few_areas = v.few_areas;
        owner_area = λ p h. elim (Bool-cases (page == p)) [
          | inl same ↦ rw (same) (omega arith, area, ap s.areas (the_place number n) ∙ e)
          | inr other ↦ rw (other) (v.owner_area p (ground arith))
        ];
        page_within = λ p h. elim (Bool-cases (page == p)) [
          | inl same ↦ ground arith
          | inr other ↦ v.page_within p (ground arith)
        ];
        limit = v.limit;
        starts = v.starts;
        paged = λ p. omega (arith, count-append (at p) s.order (page ∷ []), v.paged p, more p);
      },
      record {
        free = (v.areas_ok number area e).free;
        shares = λ t l.
            ShareOk-zero_page s.generations page (area.shares t)
              ((v.areas_ok number area e).shares t l);
        cursor = ground arith;
      },
    )

-- Writing an area that is in order back into the table.
pub put-TablesOk :
    (number : ℕ) (area : Area) (s : Allocator) (many : ℕ)
    → number < many
    → many ≤ area_limit
    → s.area_count ≤ many
    → TablesOk s
    → AreaOk s.page_limit s.generations area
    → TablesOk (record s { areas = write s.areas number (some area); area_count = many })
put-TablesOk number area s many below fits more v ok = record {
  areas_ok = λ n a h. elim (Bool-cases (number == n)) [
    | inl same ↦
        let here : write s.areas number (some area) n ≡ some area = rw (same) refl in
        rw (sym (eq_of_some (sym here ∙ h))) ok
    | inr other ↦ v.areas_ok n a (ground arith)
  ];
  area_below = λ n a h. elim (Bool-cases (number == n)) [
    | inl same ↦ ground arith
    | inr other ↦ omega (arith, more, v.area_below n a (ground arith))
  ];
  few_areas = fits;
  owner_area = λ p h. elim (Bool-cases (number == s.owners p - 1)) [
    | inl same ↦ rw (same) ((v.owner_area p h).0, area, refl)
    | inr other ↦ rw (other) (v.owner_area p h)
  ];
  page_within = v.page_within;
  limit = v.limit;
  starts = v.starts;
  paged = v.paged;
}

pub AreaOk-put :
    (limit t : ℕ) (g : ℕ → ℕ) (free : FreeList) (sh : Share) (a : Area)
    → AreaOk limit g a
    → IsValid free
    → ShareOk g sh
    → AreaOk limit g (record a { free = free; shares = write a.shares t sh })
AreaOk-put limit t g free sh a ok v share_ok = record {
  free = v;
  shares = λ k l. elim (Bool-cases (t == k)) [
    | inl same ↦ rw (same) share_ok
    | inr other ↦ rw (other) (ok.shares k l)
  ];
  cursor = ok.cursor;
}

-- The tables that an index is taken from are in order, and the area belongs to them.
pub Tables-TablesOk :
    {number : ℕ} {area : Area} {s : Allocator} {left_area : Area} {left : Allocator}
    → Tables number area s left_area left
    → TablesOk s
    → number < area_limit
    → s.areas number ≡ some area
    → TablesOk left × AreaOk left.page_limit left.generations left_area × (left.areas ≡ s.areas)
Tables-TablesOk {number} {area} as_they_were v n e = (v, v.areas_ok number area e, refl)
Tables-TablesOk {number} {area} {s = s} (with_page page lt free) v n e =
    let h = hand_out-TablesOk number page area s v n e lt free in (h.0, h.1, refl)

-- The generations of the pages that were there stay as they were.
pub Tables-generations :
    {number : ℕ} {area : Area} {s : Allocator} {left_area : Area} {left : Allocator}
    → Tables number area s left_area left
    → (i : ℕ) → s.owners (page_of i) ≢ 0
    → (left.generations i ≡ s.generations i) × (left.owners (page_of i) ≡ s.owners (page_of i))
Tables-generations as_they_were i h = (refl, refl)
Tables-generations {s = s} (with_page page lt free) i h = elim (Bool-cases (page == page_of i)) [
  | inl same ↦ absurd (ground arith)
  | inr other ↦ ground arith
]

pub Tables-few :
    {number : ℕ} {area : Area} {s : Allocator} {left_area : Area} {left : Allocator}
    → Tables number area s left_area left
    → (i : ℕ) → left.generations i ≤ s.generations i
Tables-few as_they_were i = omega arith
Tables-few {s = s} (with_page page lt free) i = ground arith

pub Tables-shares :
    {number : ℕ} {area : Area} {s : Allocator} {left_area : Area} {left : Allocator}
    → Tables number area s left_area left
    → left_area.shares ≡ area.shares
Tables-shares as_they_were = refl
Tables-shares (with_page page lt free) = refl
