-- ===== src/Ecs/Effective/Pending.antt =====
-- What is left to take in `effectiveAccess` of scheduler.hpp.
use structured_chaos.Prelude.{
  ℕ, zero, suc, ◌+◌, ◌-◌, ◌≤◌, ◌<◌, ◌≡◌, refl, ap, ◌∙◌, true, false, Bool-cases, inl, inr, none,
  some, List, [], ◌∷◌, ◌++◌, map, length, get_elem?, take, ◌==◌, if◌then◌else◌, if_rule, eq_of_some,
  arith,
}
use structured_chaos.Ecs.Access.{contains}
use structured_chaos.Ecs.Effective.{Event, Hook, Setup, Work, listeners_of, hooks_of}
use structured_chaos.Ecs.Effective.Growing.{NoDup, contains-append}

-- How many of the first list are not in the second.
pub count_out : List ℕ → List ℕ → ℕ
count_out [] seen = 0
count_out (x ∷ xs) seen = (if contains x seen then 0 else 1) + count_out xs seen

pub count_out_le : (xs seen more : List ℕ) → count_out xs (seen ++ more) ≤ count_out xs seen
unfolding count_out
count_out_le [] seen more = omega arith
count_out_le (x ∷ xs) seen more =
    let rest = count_out_le xs seen more in let both = contains-append x seen more in ground arith

pub count_out_lt :
    (xs seen : List ℕ) (t : ℕ)
    → contains t xs ≡ true
    → contains t seen ≡ false
    → count_out xs (seen ++ (t ∷ [])) < count_out xs seen
unfolding count_out contains
count_out_lt [] seen t h n = absurd (ground arith)
count_out_lt (x ∷ xs) seen t h n =
    let both = contains-append x seen (t ∷ []) in
    elim (Bool-cases (x == t)) [
      | inl s ↦
          let e : x ≡ t = ground arith in
          let rest = count_out_le xs seen (t ∷ []) in
          let here : contains x seen ≡ false = rw e n in
          let there : contains x (seen ++ (t ∷ [])) ≡ true =
            let back : (t == x) ≡ true = ground arith in both ∙ rw (here, back) refl in
          rw (here, there) (omega arith)
      | inr o ↦ let rest = count_out_lt xs seen t (rw (o) at h) n in ground arith
    ]

pub contains_of_get : (xs : List ℕ) (i : ℕ) {a : ℕ} → get_elem? xs i ≡ some a → contains a xs ≡ true
unfolding contains
contains_of_get [] i e = absurd (ground arith)
contains_of_get (x ∷ xs) zero e = let s = eq_of_some e in ground arith
contains_of_get (x ∷ xs) (suc i) {a} e =
    if_rule (λ b. b ≡ true) (x == a) (λ _. refl) (λ _. contains_of_get xs i e)

-- In a list that names nothing twice, what comes later did not come before.
pub NoDup-get :
    (xs : List ℕ) (i : ℕ) {a : ℕ}
    → NoDup xs
    → get_elem? xs i ≡ some a
    → contains a (take i xs) ≡ false
unfolding contains
NoDup-get xs zero h e = refl
NoDup-get [] (suc i) h e = refl
NoDup-get (x ∷ xs) (suc i) {a} h e =
    let there = contains_of_get xs i e in
    let rest = NoDup-get xs i h.1 e in
    if_rule (λ b. b ≡ false) (x == a)
      (λ s.
        let k : x ≡ a = ground arith in
        absurd (ground (arith, h.0, there, ap (λ y. contains y xs) k)))
      (λ _. rest)

abbrev pub tags_of : List Event → List ℕ
tags_of = map (λ (e : Event). e.tag)

abbrev pub components_of : List Hook → List ℕ
components_of = map (λ (h : Hook). h.component)

pub listeners_none :
    (tag : ℕ) (es : List Event) → contains tag (tags_of es) ≡ false → listeners_of tag es ≡ []
unfolding contains listeners_of
listeners_none tag [] h = refl
listeners_none tag (e ∷ es) h = elim (Bool-cases (e.tag == tag)) [
  | inl s ↦ absurd (ground arith)
  | inr o ↦ rw (o) (listeners_none tag es (rw (o) at h))
]

pub hooks_none :
    (c : ℕ) (hs : List Hook) → contains c (components_of hs) ≡ false → hooks_of c hs ≡ []
unfolding contains hooks_of
hooks_none c [] h = refl
hooks_none c (k ∷ hs) h = elim (Bool-cases (k.component == c)) [
  | inl s ↦ absurd (ground arith)
  | inr o ↦ rw (o) (hooks_none c hs (rw (o) at h))
]

abbrev pub hook_list : Setup → List Hook
hook_list s = elim s.hooks [ none ↦ [] | some hs ↦ hs ]

-- The events and hooks whose turn has not come.
abbrev pub pending : Setup → Work → ℕ
pending s v =
    count_out (tags_of s.events) (take v.emits v.effective.emits)
    + count_out (components_of (hook_list s)) v.hooked

-- What the two loops have not looked at.
abbrev pub unread : Work → ℕ
unread v = (length v.effective.emits - v.emits) + (length v.effective.modified - v.modified)
