-- ===== src/Ecs/Effective/Growing.antt =====
-- What `take` of `effectiveAccess` of scheduler.hpp adds.
use structured_chaos.Prelude.{
  ℕ, zero, suc, ◌≡◌, refl, sym, ap, ◌∙◌, subst, true, false, ◌||◌, Bool-cases, inl, inr, some, List,
  [], ◌∷◌, ◌++◌, get_elem?, take, All, ◌==◌, if_rule, eq_of_some, arith,
}
use mathlib.Core.List.{append_assoc, append-nil}
use structured_chaos.Ecs.Access.{
  SystemAccess, contains, merge, add_once, add_all_once, conflicts_with,
}
use structured_chaos.Ecs.Access.Conflicts.{conflicts_with-merge}
use structured_chaos.Ecs.Effective.{Work, take_access, take_all}

abbrev pub NoDup : List ℕ → Type 0
NoDup [] = Unit {0}
NoDup (n ∷ ns) = (contains n ns ≡ false) × NoDup ns

pub contains-append :
    (n : ℕ) (xs ys : List ℕ) → contains n (xs ++ ys) ≡ (contains n xs || contains n ys)
unfolding contains
contains-append n [] ys = refl
contains-append n (x ∷ xs) ys = ground (arith, contains-append n xs ys)

pub All-contains : (P : ℕ → Type 0) (n : ℕ) (ns : List ℕ) → contains n ns ≡ true → All P ns → P n
unfolding contains
All-contains P n [] h k = absurd (ground arith)
All-contains P n (m ∷ ms) h k = elim (Bool-cases (m == n)) [
  | inl e ↦ let same : m ≡ n = ground arith in subst P same k.0
  | inr o ↦ All-contains P n ms (rw (o) at h) k.1
]

NoDup-snoc : (xs : List ℕ) (n : ℕ) → NoDup xs → contains n xs ≡ false → NoDup (xs ++ (n ∷ []))
unfolding contains
NoDup-snoc [] n h e = (refl, tt)
NoDup-snoc (x ∷ xs) n h e =
    (contains-append x xs (n ∷ []) ∙ ground arith, NoDup-snoc xs n h.1 (ground arith))

-- A list that grows at its end, and names nothing twice.
pub record Grows (xs ys : List ℕ) : Type 0 where
  pub more : List ℕ
  pub same : ys ≡ xs ++ more
  pub no_dup : NoDup xs → NoDup ys

Grows-refl : (xs : List ℕ) → Grows xs xs
Grows-refl xs = record { more = []; same = sym (append-nil xs); no_dup = λ h. h }

Grows-trans : {xs ys zs : List ℕ} → Grows xs ys → Grows ys zs → Grows xs zs
Grows-trans {xs} a b = record {
  more = a.more ++ b.more;
  same = b.same ∙ ap (λ l. l ++ b.more) a.same ∙ append_assoc xs a.more b.more;
  no_dup = λ h. b.no_dup (a.no_dup h);
}

add_once-Grows : (xs : List ℕ) (n : ℕ) → Grows xs (add_once xs n)
unfolding add_once
add_once-Grows xs n =
    if_rule (Grows xs) (contains n xs) (λ _. Grows-refl xs)
      (λ e. record { more = n ∷ []; same = refl; no_dup = λ h. NoDup-snoc xs n h e })

add_all_once-Grows : (xs ns : List ℕ) → Grows xs (add_all_once xs ns)
unfolding add_all_once
add_all_once-Grows xs [] = Grows-refl xs
add_all_once-Grows xs (n ∷ ns) =
    Grows-trans (add_once-Grows xs n) (add_all_once-Grows (add_once xs n) ns)

add_once-contains :
    (xs : List ℕ) (n m : ℕ) → contains m (n ∷ xs) ≡ true → contains m (add_once xs n) ≡ true
unfolding add_once contains
add_once-contains xs n m h =
    if_rule (λ ys. contains m ys ≡ true) (contains n xs)
      (λ e. elim (Bool-cases (n == m)) [
        | inl q ↦ let same : n ≡ m = ground arith in subst (λ k. contains k xs ≡ true) same e
        | inr q ↦ ground arith
      ])
      (λ e. contains-append m xs (n ∷ []) ∙ ground arith)

-- All of the first list are in the second.
abbrev pub Within : List ℕ → List ℕ → Type 0
Within xs ys = (n : ℕ) → contains n xs ≡ true → contains n ys ≡ true

Within-append : (xs ys : List ℕ) → Within xs (xs ++ ys) × Within ys (xs ++ ys)
Within-append xs ys = (
  λ n h. contains-append n xs ys ∙ rw (h) refl,
  λ n h. contains-append n xs ys ∙ rw (h) (ground arith),
)

Grows-Within : {xs ys : List ℕ} → Grows xs ys → Within xs ys
Grows-Within {xs} g n h = ap (contains n) g.same ∙ (Within-append xs g.more).0 n h

add_all_once-Within : (xs ns : List ℕ) → Within ns (add_all_once xs ns)
unfolding add_all_once contains
add_all_once-Within xs [] n h = absurd (ground arith)
add_all_once-Within xs (m ∷ ns) n h = elim (Bool-cases (m == n)) [
  | inl q ↦
      let here = add_once-contains xs m n (ground arith) in
      Grows-Within (add_all_once-Grows (add_once xs m) ns) n here
  | inr q ↦ add_all_once-Within (add_once xs m) ns n (ground arith)
]

-- What conflicts with the second access conflicts with the first, and the first emits and edits all that
-- the second does.
pub record Covers (a b : SystemAccess) : Type 0 where
  pub conflicts : (c : SystemAccess) → conflicts_with b c ≡ true → conflicts_with a c ≡ true
  pub emits : Within b.emits a.emits
  pub modified : Within b.modified a.modified

pub Covers-refl : (a : SystemAccess) → Covers a a
Covers-refl a = record { conflicts = λ c h. h; emits = λ n h. h; modified = λ n h. h }

pub Covers-trans : {a b c : SystemAccess} → Covers a b → Covers b c → Covers a c
Covers-trans p q = record {
  conflicts = λ x h. p.conflicts x (q.conflicts x h);
  emits = λ n h. p.emits n (q.emits n h);
  modified = λ n h. p.modified n (q.modified n h);
}

pub merge-Covers : (a b : SystemAccess) → Covers (merge a b) a × Covers (merge a b) b
unfolding merge
merge-Covers a b = (
  record {
    conflicts = λ c h. conflicts_with-merge a b c ∙ rw (h) refl;
    emits = Grows-Within (add_all_once-Grows a.emits b.emits);
    modified = (Within-append a.modified b.modified).0;
  },
  record {
    conflicts = λ c h. conflicts_with-merge a b c ∙ rw (h) (ground arith);
    emits = add_all_once-Within a.emits b.emits;
    modified = (Within-append a.modified b.modified).1;
  },
)

-- What one taking of accesses does.
pub record Taken (v w : Work) : Type 0 where
  pub covers : Covers w.effective v.effective
  pub emits_grow : Grows v.effective.emits w.effective.emits
  pub modified_more : List ℕ
  pub modified_same : w.effective.modified ≡ v.effective.modified ++ modified_more
  pub hooked_same : w.hooked ≡ v.hooked
  pub emits_same : w.emits ≡ v.emits
  pub modified_at : w.modified ≡ v.modified

Taken-refl : (v : Work) → Taken v v
Taken-refl v = record {
  covers = Covers-refl v.effective;
  emits_grow = Grows-refl v.effective.emits;
  modified_more = [];
  modified_same = sym (append-nil v.effective.modified);
  hooked_same = refl;
  emits_same = refl;
  modified_at = refl;
}

take_access-Taken : (a : SystemAccess) (v : Work) → Taken v (take_access a v)
unfolding take_access merge
take_access-Taken a v = record {
  covers = (merge-Covers v.effective a).0;
  emits_grow = add_all_once-Grows v.effective.emits a.emits;
  modified_more = a.modified;
  modified_same = refl;
  hooked_same = refl;
  emits_same = refl;
  modified_at = refl;
}

Taken-trans : {u v w : Work} → Taken u v → Taken v w → Taken u w
Taken-trans {u} a b = record {
  covers = Covers-trans b.covers a.covers;
  emits_grow = Grows-trans a.emits_grow b.emits_grow;
  modified_more = a.modified_more ++ b.modified_more;
  modified_same =
      b.modified_same
      ∙ ap (λ l. l ++ b.modified_more) a.modified_same
      ∙ append_assoc u.effective.modified a.modified_more b.modified_more;
  hooked_same = b.hooked_same ∙ a.hooked_same;
  emits_same = b.emits_same ∙ a.emits_same;
  modified_at = b.modified_at ∙ a.modified_at;
}

-- Accesses that are taken are covered, and nothing is lost.
pub take_all-Taken :
    (accesses : List SystemAccess) (v : Work)
    → Taken v (take_all accesses v) × All (Covers (take_all accesses v).effective) accesses
unfolding take_all
take_all-Taken [] v = (Taken-refl v, tt)
take_all-Taken (a ∷ accesses) v =
    let one = take_access-Taken a v in
    let (rest, covered) = take_all-Taken accesses (take_access a v) in
    (Taken-trans one rest, (Covers-trans rest.covers access_covered, covered))
  where
    access_covered : Covers (take_access a v).effective a
    access_covered = (merge-Covers v.effective a).1

pub take-suc :
    (xs : List ℕ) (i : ℕ) {a : ℕ}
    → get_elem? xs i ≡ some a
    → take (suc i) xs ≡ take i xs ++ (a ∷ [])
take-suc [] i e = absurd (ground arith)
take-suc (x ∷ xs) zero e = ap (λ y. y ∷ []) (eq_of_some e)
take-suc (x ∷ xs) (suc i) e = ap (λ l. x ∷ l) (take-suc xs i e)
