-- ===== src/Ecs/Effective/Rounds.antt =====
-- The rounds of the loops of `effectiveAccess` of scheduler.hpp.
use structured_chaos.Prelude.{
  ℕ, suc, ◌+◌, ◌≤◌, ◌<◌, ◌≡◌, refl, ap, ◌∙◌, Bool-cases, inl, inr, ◌⊎◌, some, List, [], ◌∷◌, ◌++◌,
  length, length-append, get_elem?, lt_of_get_elem?, take, take-append_left, All, All-map,
  All-append, arith,
}
use structured_chaos.Ecs.Access.{SystemAccess, contains}
use structured_chaos.Ecs.Effective.{Setup, Work, take_all, listeners_of, hooks_of, take_emit}
use structured_chaos.Ecs.Effective.Growing.{
  Covers, Covers-trans, NoDup, Taken, take_all-Taken, take-suc,
}
use structured_chaos.Ecs.Effective.Pending.{
  count_out_le, count_out_lt, NoDup-get, tags_of, listeners_none, hook_list, pending, unread,
}

abbrev pub AllCovered : SystemAccess → (ℕ → List SystemAccess) → List ℕ → Type 0
AllCovered a by ns = All (λ n. All (Covers a) (by n)) ns

pub Covers-All :
    (a b : SystemAccess) (by : ℕ → List SystemAccess) (ns : List ℕ)
    → Covers b a
    → AllCovered a by ns
    → AllCovered b by ns
Covers-All a b by ns more h =
    All-map {Q = λ n. All (Covers b) (by n)}
      (λ n k. All-map {Q = Covers b} (λ x covers. Covers-trans more covers) (by n) k) ns h

pub no_take : (u : Work) → take_all [] u ≡ u
unfolding take_all
no_take u = refl

pub take_grown :
    (xs ys more : List ℕ) (i : ℕ) → ys ≡ xs ++ more → i ≤ length xs → take i ys ≡ take i xs
take_grown xs ys more i e l = ap (take i) e ∙ take-append_left xs more i l

-- What stays done after accesses were taken.
pub next_take :
    (xs ys more : List ℕ) (i : ℕ) {n : ℕ}
    → ys ≡ xs ++ more
    → get_elem? xs i ≡ some n
    → take (suc i) ys ≡ take i xs ++ (n ∷ [])
next_take xs ys more i e h =
    take_grown xs ys more (suc i) e (omega (arith, lt_of_get_elem? xs i h)) ∙ take-suc xs i h

pub length_grown : (xs ys more : List ℕ) → ys ≡ xs ++ more → length xs ≤ length ys
length_grown xs ys more e = omega (arith, ap length e, length-append xs more)

module _ (s : Setup) (own : SystemAccess) where
  abbrev pub emit_accesses : ℕ → List SystemAccess
  emit_accesses tag = listeners_of tag s.events

  abbrev pub hook_accesses : ℕ → List SystemAccess
  hook_accesses c = hooks_of c (hook_list s)

  pub record Inv (v : Work) : Type 0 where
    pub covers_own : Covers v.effective own
    pub no_dup : NoDup v.effective.emits
    pub emits_le : v.emits ≤ length v.effective.emits
    pub modified_le : v.modified ≤ length v.effective.modified
    pub emits_done : AllCovered v.effective emit_accesses (take v.emits v.effective.emits)
    pub modified_done : AllCovered v.effective hook_accesses (take v.modified v.effective.modified)
    pub hooked_done : AllCovered v.effective hook_accesses v.hooked

  -- All that an access sets off is covered by it, and so is the one of the system.
  pub record Closed (a : SystemAccess) : Type 0 where
    pub covers_own : Covers a own
    pub emits : AllCovered a emit_accesses a.emits
    pub modified : AllCovered a hook_accesses a.modified

  pub kept_emits :
      (v w : Work)
      → Taken v w
      → Inv v
      → AllCovered w.effective emit_accesses (take v.emits w.effective.emits)
  kept_emits v w t inv =
      rw
        (take_grown v.effective.emits w.effective.emits t.emits_grow.more v.emits t.emits_grow.same
          inv.emits_le)
        (Covers-All v.effective w.effective emit_accesses (take v.emits v.effective.emits) t.covers
          inv.emits_done)

  pub kept_modified :
      (v w : Work)
      → Taken v w
      → Inv v
      → AllCovered w.effective hook_accesses (take v.modified w.effective.modified)
  kept_modified v w t inv =
      rw
        (take_grown v.effective.modified w.effective.modified t.modified_more v.modified
          t.modified_same inv.modified_le)
        (Covers-All v.effective w.effective hook_accesses (take v.modified v.effective.modified)
          t.covers inv.modified_done)

  pub take_emit-Inv :
      (v : Work) (tag : ℕ)
      → Inv v
      → get_elem? v.effective.emits v.emits ≡ some tag
      → Inv (take_emit s tag v)
  unfolding take_emit
  take_emit-Inv v tag inv e =
      let accesses = listeners_of tag s.events in
      let w = take_all accesses v in
      let (t, covered) = take_all-Taken accesses v in
      let here = lt_of_get_elem? v.effective.emits v.emits e in
      let longer =
        length_grown v.effective.emits w.effective.emits t.emits_grow.more t.emits_grow.same in
      let longer' =
        length_grown v.effective.modified w.effective.modified t.modified_more t.modified_same in
      let at_next : w.emits + 1 ≡ suc v.emits = omega (arith, t.emits_same) in
      record {
        covers_own = Covers-trans t.covers inv.covers_own;
        no_dup = t.emits_grow.no_dup inv.no_dup;
        emits_le = omega arith;
        modified_le = omega (arith, t.modified_at, inv.modified_le);
        emits_done =
            rw
              (
                at_next,
                next_take v.effective.emits w.effective.emits t.emits_grow.more v.emits
                    t.emits_grow.same e,
              )
              (All-append (λ n. All (Covers w.effective) (emit_accesses n))
                (take v.emits v.effective.emits) (tag ∷ [])
                (Covers-All v.effective w.effective emit_accesses (take v.emits v.effective.emits)
                  t.covers inv.emits_done)
                (covered, tt));
        modified_done = rw (t.modified_at) (kept_modified v w t inv);
        hooked_done =
            rw (t.hooked_same)
              (Covers-All v.effective w.effective hook_accesses v.hooked t.covers inv.hooked_done);
      }

  -- A round leaves less to take, or as much and less to read.
  abbrev pub Progress : Work → Work → Type 0
  Progress v w =
      (pending s w < pending s v) ⊎ ((pending s w ≤ pending s v) × (suc (unread w) ≤ unread v))

  pub take_emit-Progress :
      (v : Work) (tag : ℕ)
      → Inv v
      → get_elem? v.effective.emits v.emits ≡ some tag
      → Progress v (take_emit s tag v)
  unfolding take_emit
  take_emit-Progress v tag inv e =
      let accesses = listeners_of tag s.events in
      let w = take_all accesses v in
      let (t, covered) = take_all-Taken accesses v in
      let at_next : w.emits + 1 ≡ suc v.emits = omega (arith, t.emits_same) in
      let seen : take (w.emits + 1) w.effective.emits
          ≡ take v.emits v.effective.emits ++ (tag ∷ []) =
        ap (λ n. take n w.effective.emits) at_next
        ∙ next_take v.effective.emits w.effective.emits t.emits_grow.more v.emits t.emits_grow.same
            e in
      let here = lt_of_get_elem? v.effective.emits v.emits e in
      let before = take v.emits v.effective.emits in
      elim (Bool-cases (contains tag (tags_of s.events))) [
        | inl h ↦
            let less =
              count_out_lt (tags_of s.events) before tag h
                (NoDup-get v.effective.emits v.emits inv.no_dup e) in
            inl (rw (seen, t.hooked_same) (omega arith))
        | inr h ↦
            let nothing : w ≡ v =
              ap (λ l. take_all l v) (listeners_none tag s.events h) ∙ no_take v in
            let le = count_out_le (tags_of s.events) before (tag ∷ []) in
            inr (rw (seen, t.hooked_same) (omega arith), rw (at_next) (rw (nothing) (omega arith)))
      ]
