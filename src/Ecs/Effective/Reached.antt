-- ===== src/Ecs/Effective/Reached.antt =====
-- All that a system sets off, through any chain of events and edits, against what `effectiveAccess` of
-- scheduler.hpp takes.
use structured_chaos.Prelude.{
  ℕ, zero, suc, ◌+◌, ◌≤◌, ◌≡◌, sym, ◌∙◌, subst, true, Bool-cases, inl, inr, Option-cases, some,
  length, get_elem?, All, All-get_elem?, ltb, eq_of_some, arith,
}
use structured_chaos.Ecs.Access.{SystemAccess, contains}
use structured_chaos.Ecs.Effective.{
  Setup, Work, Phase, emitting, modifying, run, listeners_of, hooks_of, take_emit, take_modified,
  start, effective_access,
}
use structured_chaos.Ecs.Effective.Growing.{All-contains, Covers, NoDup}
use structured_chaos.Ecs.Effective.Pending.{hook_list}
use structured_chaos.Ecs.Effective.Rounds.{Closed}
use structured_chaos.Ecs.Effective.Closing.{
  run_emit, run_emitted, run_modified, run_again, run_ends, effective_access-Closed,
}

-- What runs when a system runs: it, the listeners of what that emits, and the hooks of what that edits.
pub data SetOff (s : Setup) (own : SystemAccess) : SystemAccess → Type 0 where
  itself : SetOff s own own
  listens :
      (a : SystemAccess) (tag i : ℕ) (x : SystemAccess)
      → SetOff s own a
      → contains tag a.emits ≡ true
      → get_elem? (listeners_of tag s.events) i ≡ some x
      → SetOff s own x
  hooks :
      (a : SystemAccess) (component i : ℕ) (x : SystemAccess)
      → SetOff s own a
      → contains component a.modified ≡ true
      → get_elem? (hooks_of component (hook_list s)) i ≡ some x
      → SetOff s own x

SetOff-Covers :
    (s : Setup) (own a : SystemAccess)
    → Closed s own a
    → (x : SystemAccess) → SetOff s own x
    → Covers a x
SetOff-Covers s own a closed x itself = closed.covers_own
SetOff-Covers s own a closed x (listens b tag i _ before e at) =
    let within = (SetOff-Covers s own a closed b before).emits tag e in
    All-get_elem? (Covers a) (listeners_of tag s.events) i
      (All-contains (λ n. All (Covers a) (listeners_of n s.events)) tag a.emits within closed.emits)
      at
SetOff-Covers s own a closed x (hooks b component i _ before e at) =
    let within = (SetOff-Covers s own a closed b before).modified component e in
    All-get_elem? (Covers a) (hooks_of component (hook_list s)) i
      (All-contains (λ n. All (Covers a) (hooks_of n (hook_list s))) component a.modified within
        closed.modified)
      at

-- More fuel gives the same.
run_more :
    (s : Setup) (fuel fuel' : ℕ) (phase : Phase) (v w : Work)
    → fuel ≤ fuel'
    → run s fuel phase v ≡ some w
    → run s fuel' phase v ≡ some w
unfolding run
run_more s zero fuel' phase v w l e = absurd (ground arith)
run_more s (suc fuel) zero phase v w l e = absurd (omega arith)
run_more s (suc fuel) (suc fuel') emitting v w l e =
    elim (Option-cases (get_elem? v.effective.emits v.emits)) [
      | inl n ↦
          run_emitted s fuel' v n
          ∙ run_more s fuel fuel' modifying v w (omega arith) (sym (run_emitted s fuel v n) ∙ e)
      | inr (tag, n) ↦
          run_emit s fuel' v tag n
          ∙ run_more s fuel fuel' emitting (take_emit s tag v) w (omega arith)
              (sym (run_emit s fuel v tag n) ∙ e)
    ]
run_more s (suc fuel) (suc fuel') modifying v w l e =
    elim (Option-cases (get_elem? v.effective.modified v.modified)) [
      | inr (c, n) ↦
          run_modified s fuel' v c n
          ∙ run_more s fuel fuel' modifying (take_modified s c v) w (omega arith)
              (sym (run_modified s fuel v c n) ∙ e)
      | inl n ↦ elim (Bool-cases (ltb v.emits (length v.effective.emits))) [
        | inl h ↦
            run_again s fuel' v n h
            ∙ run_more s fuel fuel' emitting v w (omega arith) (sym (run_again s fuel v n h) ∙ e)
        | inr h ↦ run_ends s fuel' v n h ∙ sym (run_ends s fuel v n h) ∙ e
      ]
    ]

pub effective_access-more :
    (s : Setup) (fuel fuel' : ℕ) (own : SystemAccess) (w : Work)
    → fuel ≤ fuel'
    → effective_access s fuel own ≡ some w
    → effective_access s fuel' own ≡ some w
unfolding effective_access
effective_access-more s fuel fuel' own w l e = run_more s fuel fuel' emitting (start own) w l e

-- effectiveAccess ends, however listeners and hooks set each other off: with some fuel and with
-- all that is more it gives the same access, and that one conflicts with all, emits all and edits
-- all that anything does that the system sets off through any chain of events and edits, the
-- system included. The system names no event twice.
pub effective_access-Covers :
    (s : Setup) (own : SystemAccess)
    → NoDup own.emits
    → (least : ℕ) × (w : Work) × ((fuel : ℕ) → least ≤ fuel → effective_access s fuel own ≡ some w)
      × ((x : SystemAccess) → SetOff s own x → Covers w.effective x)
effective_access-Covers s own dup =
    let (least, w, e, closed) = effective_access-Closed s own dup in
    (
      least,
      w,
      λ fuel l. effective_access-more s least fuel own w l e,
      SetOff-Covers s own w.effective closed,
    )

-- What it gives covers all that is set off, however much fuel it took.
pub given-Covers :
    (s : Setup) (own : SystemAccess) (fuel : ℕ) (w : Work)
    → NoDup own.emits
    → effective_access s fuel own ≡ some w
    → (x : SystemAccess) → SetOff s own x
    → Covers w.effective x
given-Covers s own fuel w dup e x off =
    let (least, w', e', covers) = effective_access-Covers s own dup in
    let same : w' ≡ w = eq_of_some (
      sym (e' (least + fuel) (omega arith))
      ∙ effective_access-more s fuel (least + fuel) own w (omega arith) e) in
    subst (λ z. Covers z.effective x) same (covers x off)
