-- ===== src/Ecs/Allocator/Making.antt =====
-- What `create` of entity.hpp does to the tables, on each of its ways: it takes an index out of what
-- waits, and puts the indices of a new page into it if it needs one.
use structured_chaos.Prelude.{
  ℕ, zero, suc, ◌+◌, ◌-◌, ◌*◌, ◌≤◌, ◌<◌, ◌≡◌, ◌≢◌, refl, sym, ap, ◌⊎◌, inl, inr, List, [], ◌∷◌,
  reverse, none, some, ◌==◌, ltb, arith, Bool-cases, Option-cases, length,
}
use structured_chaos.Ecs.Entity.{make_entity, page_size}
use structured_chaos.Ecs.FreeList.{FreeList, take_chunk}
use structured_chaos.Ecs.FreeList.Counts.{
  IsValid, count, count_free, take_chunk-count, count-reverse, count-length,
}
use structured_chaos.Ecs.Allocator.{
  Share, Area, Allocator, Created, created, no_index_left, next_page, find_page, hand_out, store,
  from_chunk, from_page, from_new_page, create_held,
}
use structured_chaos.Ecs.Allocator.Weights.{
  share_weight, pages, span, span_one, span_zero, pages-append,
}
use structured_chaos.Ecs.Allocator.Invariant.{ShareOk}

pub find_page_lem :
    (limit : ℕ) (owners : ℕ → ℕ) (tries page : ℕ) {found : ℕ}
    → page < limit
    → find_page limit owners tries page ≡ some found
    → (found < limit) × (owners found ≡ 0)
unfolding find_page
find_page_lem limit owners zero page h e = absurd (ground arith)
find_page_lem limit owners (suc tries) page {found} h e = elim (Bool-cases (owners page == 0)) [
  | inl free ↦ ground arith
  | inr taken ↦
      find_page_lem limit owners tries (next_page limit page) (ground arith) (ground arith)
]

-- The pages from one on, past the last at 0 again.
Covers : ℕ → ℕ → ℕ → ℕ → Type 0
Covers limit tries page p = ((page ≤ p) × (p < page + tries)) ⊎ (p + limit < page + tries)

next_page-Covers :
    (limit tries page p : ℕ)
    → page < limit
    → p < limit
    → page ≢ p
    → Covers limit (suc tries) page p
    → Covers limit tries (next_page limit page) p
unfolding Covers
next_page-Covers limit tries page p h l other k = elim (Bool-cases (ltb (page + 1) limit)) [
  | inl inside ↦
      rw (inside) (elim k [ inl a ↦ inl (omega (arith, other)) | inr b ↦ inr (omega arith) ])
  | inr last ↦ rw (last) (elim k [ inl a ↦ absurd (ground arith) | inr b ↦ inl (ground arith) ])
]

-- A search that finds nothing went past every page.
pub find_page-none :
    (limit : ℕ) (owners : ℕ → ℕ) (tries page p : ℕ)
    → page < limit
    → p < limit
    → find_page limit owners tries page ≡ none
    → ((page ≤ p) × (p < page + tries)) ⊎ (p + limit < page + tries)
    → owners p ≢ 0
unfolding find_page Covers
find_page-none limit owners zero page p h l e (inl k) = absurd (omega arith)
find_page-none limit owners zero page p h l e (inr k) = absurd (omega arith)
find_page-none limit owners (suc tries) page p h l e k = elim (Bool-cases (owners page == 0)) [
  | inl free ↦ absurd (ground arith)
  | inr taken ↦ elim (Bool-cases (page == p)) [
    | inl same ↦ ground arith
    | inr unlike ↦
        let other : page ≢ p = ground arith in
        let rest : find_page limit owners tries (next_page limit page) ≡ none = ground arith in
        find_page-none limit owners tries (next_page limit page) p (ground arith) l rest
          (next_page-Covers limit tries page p h l other k)
  ]
]

-- The tables that the index is taken from: those there were, or those with a new page.
pub data Tables (number : ℕ) (area : Area) (s : Allocator) : Area → Allocator → Type 0 where
  as_they_were : Tables number area s area s
  with_page :
      (page : ℕ)
      → page < s.page_limit
      → s.owners page ≡ 0
      → Tables number area s (hand_out page number area s).0 (hand_out page number area s).1

-- What a call leaves that hands an index out.
pub record Taken (number thread : ℕ) (area : Area) (share : Share) (s : Allocator)
    (r : Created × Allocator) : Type 0 where
  pub index : ℕ
  pub left_area : Area
  pub left_free : FreeList
  pub left_share : Share
  pub left : Allocator
  pub result : r ≡ (
    created (make_entity index (left.generations index)),
    store number thread left_share (record left_area { free = left_free }) left,
  )
  pub tables : Tables number area s left_area left
  pub free_ok : IsValid left_free
  pub share_ok : ShareOk left.generations left_share
  pub balance :
      (w : ℕ → ℕ)
      → w index + count_free w left_free + share_weight w left_share + pages w s.order
        ≡ count_free w area.free + share_weight w share + pages w left.order

pub data Outcome (number thread : ℕ) (area : Area) (share : Share) (s : Allocator)
    : Created × Allocator → Type 0 where
  taken :
      {r : Created × Allocator}
      → Taken number thread area share s r
      → Outcome number thread area share s r
  full :
      share.held ≡ []
      → share.next ≡ share.end
      → take_chunk area.free ≡ none
      → find_page s.page_limit s.owners s.page_limit area.cursor ≡ none
      → Outcome number thread area share s (no_index_left, s)

-- The first index of a share, and the rest.
page_balance :
    (w : ℕ → ℕ) (share : Share)
    → share.next < share.end
    → w share.next + share_weight w (record share { next = share.next + 1 }) ≡ share_weight w share
page_balance w share lt =
    let fewer : share.end - share.next - 1 ≡ share.end - (share.next + 1) = omega arith in
    omega (
      arith,
      span_one w share.next (share.end - share.next) (omega arith),
      ap (span w (share.next + 1)) fewer,
    )

page_result :
    (number thread : ℕ) (area : Area) (share : Share) (s : Allocator)
    → s.generations share.next ≡ 0
    → from_page number thread area share s ≡ (
      created (make_entity share.next (s.generations share.next)),
      store number thread (record share { next = share.next + 1 }) area s,
    )
page_result number thread area share s e =
    ap
      (λ g. (
        created (make_entity share.next g),
        store number thread (record share { next = share.next + 1 }) area s,
      ))
      (sym e)

module _ (number thread : ℕ) where
  from_chunk_lem :
      (i : ℕ) (rest : List ℕ) (free : FreeList) (area : Area) (share : Share) (s : Allocator)
      → IsValid free
      → ShareOk s.generations share
      → ((w : ℕ → ℕ)
          → count w (i ∷ rest) + count_free w free ≡ count w share.held + count_free w area.free)
      → Taken number thread area share s
          (from_chunk number thread (i ∷ rest) (record area { free = free }) share s)
  unfolding from_chunk
  from_chunk_lem i rest free area share s v ok b = record {
    index = i;
    left_area = area;
    left_free = free;
    left_share = record share { held = rest };
    left = s;
    result = refl;
    tables = as_they_were;
    free_ok = v;
    share_ok = record { ordered = ok.ordered; short = ok.short; zeros = ok.zeros };
    balance = λ w. omega (arith, b w);
  }

  from_page_lem :
      (area : Area) (share : Share) (s : Allocator)
      → IsValid area.free
      → ShareOk s.generations share
      → share.next < share.end
      → Taken number thread area share s (from_page number thread area share s)
  from_page_lem area share s v ok lt = record {
    index = share.next;
    left_area = area;
    left_free = area.free;
    left_share = record share { next = share.next + 1 };
    left = s;
    result = page_result number thread area share s (ok.zeros share.next (omega arith) lt);
    tables = as_they_were;
    free_ok = v;
    share_ok = record {
      ordered = omega arith;
      short = omega (arith, ok.short);
      zeros = λ i h l. ok.zeros i (omega arith) l;
    };
    balance = λ w. omega (arith, page_balance w share lt);
  }

  new_page_lem :
      (page : ℕ) (area : Area) (share : Share) (s : Allocator)
      → IsValid area.free
      → page < s.page_limit
      → s.owners page ≡ 0
      → share.next ≡ share.end
      → Taken number thread area share s (
          from_page number thread
            (hand_out page number area s).0
            (record share { next = page * page_size; end = page * page_size + page_size })
            (hand_out page number area s).1)
  new_page_lem page area share s v within free none_left =
      let start = record share { next = page * page_size; end = page * page_size + page_size } in
      let made = hand_out page number area s in
      let all : start.end - start.next ≡ page_size = omega arith in
      let nothing : share.end - share.next ≡ 0 = omega arith in
      let zeroed : (i : ℕ)
          → page * page_size ≤ i
          → i < page * page_size + page_size
          → made.1.generations i ≡ 0 =
        λ i h l. ground arith in
      record {
        index = start.next;
        left_area = made.0;
        left_free = area.free;
        left_share = record start { next = start.next + 1 };
        left = made.1;
        result =
            page_result number thread made.0 start made.1
              (zeroed start.next (omega arith) (omega arith));
        tables = with_page page within free;
        free_ok = v;
        share_ok = record {
          ordered = omega arith;
          short = omega arith;
          zeros = λ i h l. zeroed i (omega arith) l;
        };
        balance = λ w. omega (
          arith,
          page_balance w start (omega arith),
          ap (span w (page * page_size)) all,
          ap (span w share.next) nothing,
          span_zero w share.next,
          pages-append w s.order (page ∷ []),
        );
      }

  from_new_page_lem :
      (area : Area) (share : Share) (s : Allocator)
      → IsValid area.free
      → area.cursor < s.page_limit
      → share.held ≡ []
      → share.next ≡ share.end
      → take_chunk area.free ≡ none
      → Outcome number thread area share s (from_new_page number thread area share s)
  unfolding from_new_page
  from_new_page_lem area share s v c no_held none_left no_chunk =
      elim (Option-cases (find_page s.page_limit s.owners s.page_limit area.cursor)) [
        | inl e ↦ rw (e, from_new_page) (full no_held none_left no_chunk e)
        | inr (page, e) ↦
            let f = find_page_lem s.page_limit s.owners s.page_limit area.cursor c e in
            rw (e, from_new_page) (taken (new_page_lem page area share s v f.0 f.1 none_left))
      ]

  from_taken_chunk_lem :
      (indices : List ℕ) (free : FreeList) (area : Area) (share : Share) (s : Allocator)
      → 0 < length indices
      → IsValid free
      → ShareOk s.generations share
      → ((w : ℕ → ℕ)
          → count w indices + count_free w free ≡ count w share.held + count_free w area.free)
      → Taken number thread area share s
          (from_chunk number thread indices (record area { free = free }) share s)
  from_taken_chunk_lem [] free area share s h v ok b = absurd (omega arith)
  from_taken_chunk_lem (i ∷ rest) free area share s h v ok b =
      from_chunk_lem i rest free area share s v ok b

  pub create_held_lem :
      (held : List ℕ) (area : Area) (share : Share) (s : Allocator)
      → share.held ≡ held
      → IsValid area.free
      → area.cursor < s.page_limit
      → ShareOk s.generations share
      → Outcome number thread area share s (create_held number thread held area share s)
  unfolding create_held
  create_held_lem (i ∷ rest) area share s h v c ok =
      taken (from_chunk_lem i rest area.free area share s v ok (λ w. omega (arith, ap (count w) h)))
  create_held_lem [] area share s h v c ok = elim (Option-cases (take_chunk area.free)) [
    | inl e ↦ elim (Bool-cases (share.next == share.end)) [
      | inl none_left ↦
          rw (e, none_left, create_held) (from_new_page_lem area share s v c h (ground arith) e)
      | inr some_left ↦
          rw (e, some_left, create_held) (taken (from_page_lem area share s v ok (ground arith)))
    ]
    | inr (p, e) ↦
        let took = λ (w : ℕ → ℕ). take_chunk-count w area.free p.0 p.1 v e in
        rw (e, create_held)
          (taken (
            from_taken_chunk_lem (reverse p.0) p.1 area share s
              (omega (
                arith,
                count-length (reverse p.0),
                count-length p.0,
                count-reverse (λ _. 1) p.0,
                (took (λ _. 1)).1,
              ))
              (took (λ _. 1)).2 ok
              (λ w. omega (arith, ap (count w) h, (took w).0, count-reverse w p.0))))
  ]
