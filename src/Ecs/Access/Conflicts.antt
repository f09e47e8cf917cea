-- ===== src/Ecs/Access/Conflicts.antt =====
-- `conflictsWith` of scheduler.hpp: it is true exactly of systems that must not run at the same time,
-- in either order, and `merge` takes over the conflicts of both.
use structured_chaos.Prelude.{
  ℕ, Bool, true, false, ◌||◌, List, ◌≡◌, ◌↔◌, ◌⊎◌, inl, inr, refl, sym, arith, Bool-cases,
}
use structured_chaos.Ecs.Access.{Access, SystemAccess, add_all, merge, overlap, conflicts_with}
use structured_chaos.Ecs.Access.Uses.{
  uses_of_writes, uses-add_all, writes-add_all, Clash, overlap_iff,
}

-- One of the two runs alone, or one writes a component, a global value or a cache that the other uses.
abbrev pub MustSeparate : SystemAccess → SystemAccess → Type 0
MustSeparate a b =
    (a.exclusive ≡ true)
    ⊎ (b.exclusive ≡ true)
    ⊎ ((i : ℕ) × Clash i a.components b.components)
    ⊎ ((i : ℕ) × Clash i a.globals b.globals)
    ⊎ ((i : ℕ) × Clash i a.caches b.caches)

any_of_five :
    (a b c d e : Bool)
    → (a || b || c || d || e) ≡ true
    → (a ≡ true) ⊎ (b ≡ true) ⊎ (c ≡ true) ⊎ (d ≡ true) ⊎ (e ≡ true)
any_of_five a b c d e h = ground arith

-- conflictsWith is true exactly if one of the two systems runs alone, or both use a component, a
-- global value or a cache that one of them writes.
pub conflicts_with_iff : (a b : SystemAccess) → (conflicts_with a b ≡ true) ↔ MustSeparate a b
unfolding conflicts_with
conflicts_with_iff a b = (
  λ h.
      elim (any_of_five a.exclusive b.exclusive (overlap a.components b.components)
        (overlap a.globals b.globals) (overlap a.caches b.caches) h) [
          | inl e ↦ inl e
          | inr (inl e) ↦ inr (inl e)
          | inr (inr (inl o)) ↦ inr (inr (inl ((overlap_iff a.components b.components).0 o)))
          | inr (inr (inr (inl o))) ↦ inr (inr (inr (inl ((overlap_iff a.globals b.globals).0 o))))
          | inr (inr (inr (inr o))) ↦ inr (inr (inr (inr ((overlap_iff a.caches b.caches).0 o))))
        ],
  λ h. elim h [
    | inl e ↦ ground arith
    | inr (inl e) ↦ ground arith
    | inr (inr (inl c)) ↦ let o = (overlap_iff a.components b.components).1 c in ground arith
    | inr (inr (inr (inl c))) ↦ let o = (overlap_iff a.globals b.globals).1 c in ground arith
    | inr (inr (inr (inr c))) ↦ let o = (overlap_iff a.caches b.caches).1 c in ground arith
  ],
)

-- Two truth values that imply each other are the same.
pub eq_of_iff : (a b : Bool) → (a ≡ true → b ≡ true) → (b ≡ true → a ≡ true) → a ≡ b
eq_of_iff true b f g = sym (f refl)
eq_of_iff false true f g = g refl
eq_of_iff false false f g = refl

Clash-symm : (i : ℕ) (mine theirs : List Access) → Clash i mine theirs → Clash i theirs mine
Clash-symm i mine theirs c = (c.1, c.0, ground arith)

overlap_comm : (mine theirs : List Access) → overlap mine theirs ≡ overlap theirs mine
overlap_comm mine theirs =
    eq_of_iff _ _
      (λ h.
        let c = (overlap_iff mine theirs).0 h in
        (overlap_iff theirs mine).1 (c.0, Clash-symm c.0 mine theirs c.1))
      (λ h.
        let c = (overlap_iff theirs mine).0 h in
        (overlap_iff mine theirs).1 (c.0, Clash-symm c.0 theirs mine c.1))

pub conflicts_with_comm : (a b : SystemAccess) → conflicts_with a b ≡ conflicts_with b a
unfolding conflicts_with
conflicts_with_comm a b = ground (
  arith,
  overlap_comm a.components b.components,
  overlap_comm a.globals b.globals,
  overlap_comm a.caches b.caches,
)

Clash-add_all :
    (i : ℕ) (mine other theirs : List Access)
    → Clash i (add_all mine other) theirs
    → Clash i mine theirs ⊎ Clash i other theirs
Clash-add_all i mine other theirs c = ground (
  arith,
  uses-add_all mine other i,
  writes-add_all mine other i,
  uses_of_writes i mine,
  uses_of_writes i other,
)

add_all-Clash :
    (i : ℕ) (mine other theirs : List Access)
    → Clash i mine theirs ⊎ Clash i other theirs
    → Clash i (add_all mine other) theirs
add_all-Clash i mine other theirs c =
    ground (arith, uses-add_all mine other i, writes-add_all mine other i)

overlap-add_all :
    (mine other theirs : List Access)
    → overlap (add_all mine other) theirs ≡ (overlap mine theirs || overlap other theirs)
overlap-add_all mine other theirs =
    eq_of_iff _ _
      (λ h.
        let c = (overlap_iff (add_all mine other) theirs).0 h in
        elim (Clash-add_all c.0 mine other theirs c.1) [
          | inl m ↦ let o = (overlap_iff mine theirs).1 (c.0, m) in ground arith
          | inr m ↦ let o = (overlap_iff other theirs).1 (c.0, m) in ground arith
        ])
      (λ h. elim (Bool-cases (overlap mine theirs)) [
        | inl o ↦
            let c = (overlap_iff mine theirs).0 o in
            (overlap_iff (add_all mine other) theirs).1
              (c.0, add_all-Clash c.0 mine other theirs (inl c.1))
        | inr o ↦
            let c = (overlap_iff other theirs).0 (ground arith) in
            (overlap_iff (add_all mine other) theirs).1
              (c.0, add_all-Clash c.0 mine other theirs (inr c.1))
      ])

-- What merge makes of two accesses conflicts with a third exactly if one of the two does.
pub conflicts_with-merge :
    (a b c : SystemAccess)
    → conflicts_with (merge a b) c ≡ (conflicts_with a c || conflicts_with b c)
unfolding conflicts_with merge
conflicts_with-merge a b c = ground (
  arith,
  overlap-add_all a.components b.components c.components,
  overlap-add_all a.globals b.globals c.globals,
  overlap-add_all a.caches b.caches c.caches,
)
