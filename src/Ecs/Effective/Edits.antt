-- ===== src/Ecs/Effective/Edits.antt =====
-- The rounds of the loop over `modified` of `effectiveAccess` of scheduler.hpp.
use structured_chaos.Prelude.{
  ℕ, suc, ◌+◌, ◌≤◌, ◌<◌, ◌≡◌, refl, sym, ap, ◌∙◌, subst, false, Bool-cases, inl, inr, ◌⊎◌,
  Option-cases, none, some, List, [], ◌∷◌, ◌++◌, get_elem?, lt_of_get_elem?, take, All, All-append,
  if◌then◌else◌, if_rule, arith,
}
use structured_chaos.Ecs.Access.{SystemAccess, contains}
use structured_chaos.Ecs.Effective.{Hook, Setup, Work, take_all, hooks_of, take_modified}
use structured_chaos.Ecs.Effective.Growing.{
  All-contains, Covers, Covers-refl, Covers-trans, Grows, take_all-Taken,
}
use structured_chaos.Ecs.Effective.Pending.{
  count_out, count_out_le, count_out_lt, components_of, hooks_none, hook_list,
}
use structured_chaos.Ecs.Effective.Rounds.{
  AllCovered, Covers-All, take_grown, next_take, length_grown, no_take, emit_accesses,
  hook_accesses, Inv, Progress,
}

no_world : (s : Setup) (component : ℕ) → s.hooks ≡ none → hooks_of component (hook_list s) ≡ []
unfolding hooks_of
no_world s component e = rw (hook_list, e) refl

modified_without_world :
    (s : Setup) (component : ℕ) (v : Work)
    → s.hooks ≡ none
    → take_modified s component v ≡ record v { modified = v.modified + 1 }
unfolding take_modified
modified_without_world s component v e = rw (take_modified, e) refl

modified_in_world :
    (s : Setup) (component : ℕ) (v : Work) {hs : List Hook}
    → s.hooks ≡ some hs
    → take_modified s component v ≡ (
        let w =
          take_all
            (hooks_of component (hook_list s))
            (record v { hooked = v.hooked ++ (component ∷ []) }) in
        if contains component v.hooked
        then record v { modified = v.modified + 1 }
        else record w { modified = w.modified + 1 })
unfolding take_modified
modified_in_world s component v e = rw (take_modified, hook_list, e) refl

module _ (s : Setup) (own : SystemAccess) where
  -- What the body of the loop over `modified` does.
  pub record Modified (component : ℕ) (v w : Work) : Type 0 where
    pub covers : Covers w.effective v.effective
    pub emits_grow : Grows v.effective.emits w.effective.emits
    pub modified_more : List ℕ
    pub modified_same : w.effective.modified ≡ v.effective.modified ++ modified_more
    pub emits_same : w.emits ≡ v.emits
    pub counted : w.modified ≡ suc v.modified
    pub covered : All (Covers w.effective) ((hook_accesses s own) component)
    pub hooked_done : AllCovered w.effective (hook_accesses s own) w.hooked
    pub progress :
        (count_out (components_of (hook_list s)) w.hooked
          < count_out (components_of (hook_list s)) v.hooked)
        ⊎ ((count_out (components_of (hook_list s)) w.hooked
              ≤ count_out (components_of (hook_list s)) v.hooked)
            × (w.effective ≡ v.effective))

  -- A round that takes nothing.
  passed-Modified :
      (v : Work) (component : ℕ)
      → Inv s own v
      → All (Covers v.effective) ((hook_accesses s own) component)
      → Modified component v (record v { modified = v.modified + 1 })
  unfolding take_all
  passed-Modified v component inv covered =
      let t = (take_all-Taken [] v).0 in
      record {
        covers = Covers-refl v.effective;
        emits_grow = t.emits_grow;
        modified_more = t.modified_more;
        modified_same = t.modified_same;
        emits_same = refl;
        counted = omega arith;
        covered = covered;
        hooked_done = inv.hooked_done;
        progress = inr (omega arith, refl);
      }

  -- A round that takes the hooks of a component for the first time.
  taken-Modified :
      (v : Work) (component : ℕ)
      → Inv s own v
      → contains component v.hooked ≡ false
      → let w =
          take_all
            ((hook_accesses s own) component)
            (record v { hooked = v.hooked ++ (component ∷ []) }) in
        Modified component v (record w { modified = w.modified + 1 })
  taken-Modified v component inv new =
      let u : Work = record v { hooked = v.hooked ++ (component ∷ []) } in
      let w = take_all ((hook_accesses s own) component) u in
      let (t, covered) = take_all-Taken ((hook_accesses s own) component) u in
      let all = components_of (hook_list s) in
      record {
        covers = t.covers;
        emits_grow = t.emits_grow;
        modified_more = t.modified_more;
        modified_same = t.modified_same;
        emits_same = t.emits_same;
        counted = omega (arith, t.modified_at);
        covered = covered;
        hooked_done = rw (t.hooked_same) (
            All-append (λ n. All (Covers w.effective) ((hook_accesses s own) n)) v.hooked
              (component ∷ [])
              (Covers-All v.effective w.effective (hook_accesses s own) v.hooked t.covers
                inv.hooked_done)
              (covered, tt));
        progress = elim (Bool-cases (contains component all)) [
          | inl h ↦ inl (rw (t.hooked_same) (count_out_lt all v.hooked component h new))
          | inr h ↦
              let nothing : w ≡ u =
                ap (λ l. take_all l u) (hooks_none component (hook_list s) h) ∙ no_take u in
              inr (
                rw (t.hooked_same) (count_out_le all v.hooked (component ∷ [])),
                ap (λ (x : Work). x.effective) nothing,
              )
        ];
      }

  take_modified-Modified :
      (v : Work) (component : ℕ) → Inv s own v → Modified component v (take_modified s component v)
  take_modified-Modified v component inv =
      let passed : Work = record v { modified = v.modified + 1 } in
      let w =
        take_all ((hook_accesses s own) component)
          (record v { hooked = v.hooked ++ (component ∷ []) }) in
      elim (Option-cases s.hooks) [
        | inl e ↦
            let nothing : (hook_accesses s own) component ≡ [] = no_world s component e in
            subst (Modified component v) (sym (modified_without_world s component v e))
              (passed-Modified v component inv (rw (nothing) tt))
        | inr (hs, e) ↦ subst (Modified component v) (sym (modified_in_world s component v e)) (
            if_rule (Modified component v) (contains component v.hooked) {x = passed}
              {y = record w { modified = w.modified + 1 }}
              (λ h. passed-Modified v component inv (
                All-contains (λ n. All (Covers v.effective) ((hook_accesses s own) n)) component
                  v.hooked h inv.hooked_done))
              (λ h. taken-Modified v component inv h))
      ]

  pub take_modified-Inv :
      (v : Work) (component : ℕ)
      → Inv s own v
      → get_elem? v.effective.modified v.modified ≡ some component
      → Inv s own (take_modified s component v)
  take_modified-Inv v component inv e =
      let w = take_modified s component v in
      let m = take_modified-Modified v component inv in
      let here = lt_of_get_elem? v.effective.modified v.modified e in
      let longer =
        length_grown v.effective.emits w.effective.emits m.emits_grow.more m.emits_grow.same in
      let longer' =
        length_grown v.effective.modified w.effective.modified m.modified_more m.modified_same in
      record {
        covers_own = Covers-trans m.covers inv.covers_own;
        no_dup = m.emits_grow.no_dup inv.no_dup;
        emits_le = omega (arith, m.emits_same, inv.emits_le);
        modified_le = omega (arith, m.counted);
        emits_done =
            rw
              (
                m.emits_same,
                take_grown v.effective.emits w.effective.emits m.emits_grow.more v.emits
                    m.emits_grow.same inv.emits_le,
              )
              (Covers-All v.effective w.effective (emit_accesses s own)
                (take v.emits v.effective.emits) m.covers inv.emits_done);
        modified_done =
            rw
              (
                m.counted,
                next_take v.effective.modified w.effective.modified m.modified_more v.modified
                    m.modified_same e,
              )
              (All-append (λ n. All (Covers w.effective) ((hook_accesses s own) n))
                (take v.modified v.effective.modified) (component ∷ [])
                (Covers-All v.effective w.effective (hook_accesses s own)
                  (take v.modified v.effective.modified) m.covers inv.modified_done)
                (m.covered, tt));
        hooked_done = m.hooked_done;
      }

  pub take_modified-Progress :
      (v : Work) (component : ℕ)
      → Inv s own v
      → get_elem? v.effective.modified v.modified ≡ some component
      → Progress s own v (take_modified s component v)
  take_modified-Progress v component inv e =
      let w = take_modified s component v in
      let m = take_modified-Modified v component inv in
      let here = lt_of_get_elem? v.effective.modified v.modified e in
      let seen : take w.emits w.effective.emits ≡ take v.emits v.effective.emits =
        ap (λ n. take n w.effective.emits) m.emits_same
        ∙ take_grown v.effective.emits w.effective.emits m.emits_grow.more v.emits m.emits_grow.same
            inv.emits_le in
      elim m.progress [
        | inl less ↦ inl (rw (seen) (omega arith))
        | inr (le, same) ↦
            inr (rw (seen) (omega arith), rw (same, m.emits_same, m.counted) (omega arith))
      ]
