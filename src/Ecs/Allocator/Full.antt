-- ===== src/Ecs/Allocator/Full.antt =====
-- When `create` of entity.hpp finds no index: the search for a page went past every one.
use structured_chaos.Prelude.{
  ℕ, ◌+◌, ◌≤◌, ◌<◌, ◌≡◌, ◌≢◌, refl, sym, ap, ◌∙◌, ◌⊎◌, inl, inr, List, leb, arith, Bool-cases,
  Option-cases,
}
use native.Mathlib.Decide.{dec_lt}
use structured_chaos.Ecs.Allocator.{
  Share, Area, Allocator, Created, created, no_index_left, area_limit, get_area, create_held,
  create, share_of,
}
use structured_chaos.Ecs.Allocator.Weights.{share_of_lt}
use structured_chaos.Ecs.Allocator.Invariant.{Inv}
use structured_chaos.Ecs.Allocator.Making.{Outcome, taken, full, create_held_lem, find_page-none}
use structured_chaos.Ecs.Allocator.Creating.{get_area-Inv}

covers_all :
    (limit page p : ℕ)
    → page < limit
    → p < limit
    → ((page ≤ p) × (p < page + limit)) ⊎ (p + limit < page + limit)
covers_all limit page p h l = elim (dec_lt p page) [
  | yes before ↦ inr (omega arith)
  | no after ↦ inl (omega arith)
]

created-ne-no_index_left : {e : ℕ} → created e ≢ no_index_left
created-ne-no_index_left h = ground arith

full-pages :
    {number thread : ℕ} {area : Area} {share : Share} {s : Allocator} (r : Created × Allocator)
    → area.cursor < s.page_limit
    → Outcome number thread area share s r
    → r.0 ≡ no_index_left
    → (p : ℕ) → p < s.page_limit
    → s.owners p ≢ 0
full-pages r c (taken t) e p l =
    absurd (created-ne-no_index_left (sym (ap (λ q. q.0) t.result) ∙ e))
full-pages {area = area} {s = s} _ c (full _ _ _ e) h p l =
    find_page-none s.page_limit s.owners s.page_limit area.cursor p c l e
      (covers_all s.page_limit area.cursor p c l)

get_area-owners :
    (number : ℕ) (s : Allocator)
    → ((get_area number s).1.owners ≡ s.owners) × ((get_area number s).1.page_limit ≡ s.page_limit)
unfolding get_area
get_area-owners number s = elim (Option-cases (s.areas number)) [
  | inl e ↦ rw (e, get_area) (refl, refl)
  | inr (a, e) ↦ rw (e, get_area) (refl, refl)
]

pub create-Inv_full :
    (thread number : ℕ) (s : Allocator) (living ended : List ℕ)
    → Inv s living ended
    → (create thread number s).0 ≡ no_index_left
    → (p : ℕ) → p < s.page_limit
    → s.owners p ≢ 0
unfolding create
create-Inv_full thread number s living ended v h p l = elim (Bool-cases (leb area_limit number)) [
  | inl beyond ↦ absurd (ground arith)
  | inr within ↦
      let n : number < area_limit = ground arith in
      let g = get_area-Inv number s living ended n v in
      let found = get_area number s in
      let ok = g.0.tables.areas_ok number found.0 g.1 in
      let share = found.0.shares (share_of thread) in
      let same = get_area-owners number s in
      let here : (create_held number thread share.held found.0 share found.1).0 ≡ no_index_left =
        ground arith in
      rw (sym (ap (λ f. f p) same.0)) (
        full-pages (create_held number thread share.held found.0 share found.1) ok.cursor
          (create_held_lem number thread share.held found.0 share found.1 refl ok.free ok.cursor
            (ok.shares (share_of thread) (share_of_lt thread)))
          here p (rw (same.1) l))
]
