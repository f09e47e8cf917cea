-- ===== src/Ecs/Commands/Applying/Killing.antt =====
-- Erases that `CommandApplier` of scheduler.hpp gathers.
use mathlib.Core.Path.{fun_ext}
use structured_chaos.Prelude.{
  ℕ, ◌≡◌, ◌≢◌, refl, sym, true, Bool-cases, inl, inr, Option, none, ◌==◌, write, arith,
}
use structured_chaos.Ecs.Entity.{page_of}
use structured_chaos.Ecs.Commands.Applying.Spec.{KillsOk, more_kills}
use structured_chaos.Ecs.Commands.Applying.{KillPage, slot_of, word_of, set_at, killed, without}

module _ {number : ℕ} (index : ℕ) (k : KillPage)
    (noted : (slot : ℕ) → k.bits slot ≡ true → k.touched (word_of slot) ≡ true)
    (same_page : (slot : ℕ) → k.bits slot ≡ true → k.number ≡ number)
    (here : page_of index ≡ number) where
  pub killed-more_here : killed (more_kills index k) index ≡ true
  unfolding killed
  killed-more_here = ground arith

  killed-more_there :
      (other : ℕ) → index ≢ other → killed (more_kills index k) other ≡ killed k other
  unfolding killed
  killed-more_there other n = elim (Bool-cases (k.bits (slot_of other))) [
    | inl set ↦
        let t = noted (slot_of other) set in let p = same_page (slot_of other) set in ground arith
    | inr clear ↦ elim (Bool-cases (page_of other == page_of index)) [
      | inl same ↦ let apart : slot_of index ≢ slot_of other = ground arith in ground arith
      | inr other_page ↦ ground arith
    ]
  ]

-- What is left in the table with one more erase gathered.
pub without_more :
    {number : ℕ} {kills : ℕ → KillPage} (table : ℕ → ℕ → Option ℕ) (index column : ℕ)
    → KillsOk number kills
    → page_of index ≡ number
    → (λ c i. without (write kills column (more_kills index (kills column)) c) i (table c i))
      ≡ set_at (λ c i. without (kills c) i (table c i)) column index none
without_more {number} {kills} table index column ok here = fun_ext (λ c. fun_ext (λ i.
    elim (Bool-cases (column == c)) [
      | inr o ↦ rw (o) refl
      | inl s ↦ elim (Bool-cases (index == i)) [
        | inl t ↦
            let e : index ≡ i = ground arith in
            let gone =
              killed-more_here index (kills column) (ok.noted column) (ok.same_page column) here in
            rw (s, t) (rw (sym e, gone) refl)
        | inr u ↦
            let e : column ≡ c = ground arith in
            let kept =
              killed-more_there index (kills column) (ok.noted column) (ok.same_page column) here i
                (ground arith) in
            rw (s, u, kept) (rw e refl)
      ]
    ]))
