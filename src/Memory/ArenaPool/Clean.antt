-- ===== src/Memory/ArenaPool/Clean.antt =====
-- What `acquire` of arena_pool.cpp gives holds nothing that an owner before left.
use structured_chaos.Prelude.{
  ℕ, zero, suc, ◌^◌, ◌≤◌, ◌≡◌, refl, sym, ap, ◌∙◌, subst, inl, inr, List, [], ◌∷◌, ◌++◌, Option,
  none, some, ◌==◌, ltb, if◌then◌else◌, min, length, All, Bool-cases, List-cases, Option-cases,
  eq_of_some, arith,
}
use structured_chaos.Memory.Arena.{Block, default_block_size, max_align, init, reset}
use structured_chaos.Memory.CleanupList.{CleanupList, walk, run_all}
use structured_chaos.Memory.ArenaPool.{
  Resource, new_resource, Destructors, reset_resource, Pool, max_kept_arenas, new_arenas, new_pool,
  acquire, release,
}
use structured_chaos.Memory.ArenaPool.Cleared.{Cleared, one_block-Cleared, reset-Cleared}

-- No object has its destructor still to run, and no memory is in use.
pub record Clean (r : Resource) : Type 0 where
  pub no_objects : r.cleanup.head ≡ none
  pub cleared : Cleared r.arena

new-Clean : (size ptr : ℕ) → Clean (new_resource size ptr)
unfolding init
new-Clean size ptr =
    let block_size = if size == 0 then default_block_size else size in
    let b : Block = record { ptr = ptr; size = block_size; alignment = 2 ^ max_align } in
    record {
      no_objects = refl;
      cleared =
          one_block-Cleared b
            (record {
              current = 0;
              end = 0;
              blocks = b ∷ [];
              initial = record { ptr = 0; size = 0; alignment = 0 };
              block_size = block_size;
            })
            refl refl;
    }

-- What `runAll` leaves.
run_all-none :
    (made : ℕ → List ℕ) (nodes rounds : ℕ) (s : CleanupList) {t : CleanupList} {l : List ℕ}
    → run_all made nodes rounds s ≡ some (t, l)
    → t.head ≡ none
unfolding run_all
run_all-none made nodes zero s e = absurd (ground arith)
run_all-none made nodes (suc rounds) s {t} {l} e = elim (Option-cases s.head) [
  | inl empty ↦
      let over : run_all made nodes (suc rounds) s ≡ some (s, []) = simp (run_all, empty) in
      ap (λ p. p.0.head) (sym (eq_of_some (sym over ∙ e))) ∙ empty
  | inr (n, full) ↦ elim (Option-cases (walk made nodes (some n) (record s { head = none }))) [
    | inl stuck ↦
        let never : run_all made nodes (suc rounds) s ≡ none = rw (run_all, full, stuck) refl in
        let bad = sym never ∙ e in absurd (ground arith)
    | inr ((u, destroyed), w) ↦ elim (Option-cases (run_all made nodes rounds u)) [
      | inl stuck ↦
          let never : run_all made nodes (suc rounds) s ≡ none =
            rw (run_all, full, w, stuck) refl in
          let bad = sym never ∙ e in absurd (ground arith)
      | inr ((v, later), r) ↦
          let ran : run_all made nodes (suc rounds) s ≡ some (v, destroyed ++ later) =
            rw (run_all, full, w, r) refl in
          ap (λ p. p.0.head) (sym (eq_of_some (sym ran ∙ e))) ∙ run_all-none made nodes rounds u r
    ]
  ]
]

reset_resource-Clean :
    (d : Destructors) (nodes rounds : ℕ) (r kept : Resource)
    → reset_resource d nodes rounds r ≡ some kept
    → Clean kept
unfolding reset_resource
reset_resource-Clean d nodes rounds r kept e =
    elim (Option-cases (run_all d.made nodes rounds r.cleanup)) [
      | inl stuck ↦
          let never : reset_resource d nodes rounds r ≡ none = rw (reset_resource, stuck) refl in
          let bad = sym never ∙ e in absurd (ground arith)
      | inr ((s, l), ran) ↦
          let done : reset_resource d nodes rounds r
              ≡ some (record { arena = reset (d.arena_after l r.arena); cleanup = s }) =
            rw (reset_resource, ran) refl in
          subst Clean (eq_of_some (sym done ∙ e)) (record {
            no_objects = run_all-none d.made nodes rounds r.cleanup ran;
            cleared = reset-Cleared (d.arena_after l r.arena);
          })
    ]

-- A pool that its calls can lead to; a call of release ends once its fuel is enough.
pub data Reach (d : Destructors) (block : ℕ → ℕ) : Pool → Type 0 where
  made : (pool_size arena_size : ℕ) → Reach d block (new_pool block pool_size arena_size)
  acquired : {p : Pool} (ptr : ℕ) → Reach d block p → Reach d block (acquire ptr p).1
  released :
      {p p' : Pool} (nodes rounds : ℕ) (r freed : Option Resource)
      → Reach d block p
      → release d nodes rounds r p ≡ some (p', freed)
      → Reach d block p'

pub record Kept (p : Pool) : Type 0 where
  pub few : length p.arenas ≤ max_kept_arenas
  pub clean : All Clean p.arenas

new_arenas_lem :
    (block : ℕ → ℕ) (size n : ℕ)
    → (length (new_arenas block size n) ≡ n) × All Clean (new_arenas block size n)
unfolding new_arenas
new_arenas_lem block size zero = (refl, tt)
new_arenas_lem block size (suc n) =
    let r = new_arenas_lem block size n in (ap suc r.0, (new-Clean size (block n), r.1))

acquire-Kept : (ptr : ℕ) (p : Pool) → Kept p → Kept (acquire ptr p).1 × Clean (acquire ptr p).0
unfolding acquire
acquire-Kept ptr p v = elim (List-cases p.arenas) [
  | inl e ↦ rw (e, acquire) (v, new-Clean p.arena_size ptr)
  | inr (a, rest, e) ↦
      let clean = subst (All Clean) e v.clean in
      let few = ap length e in
      rw (e, acquire) (record { few = omega (arith, few, v.few); clean = clean.1 }, clean.0)
]

release-Kept :
    (d : Destructors) (nodes rounds : ℕ) (r freed : Option Resource) (p p' : Pool)
    → Kept p
    → release d nodes rounds r p ≡ some (p', freed)
    → Kept p'
unfolding release
release-Kept d nodes rounds none freed p p' v e = subst Kept (ap (λ o. o.0) (eq_of_some e)) v
release-Kept d nodes rounds (some r) freed p p' v e =
    elim (Option-cases (reset_resource d nodes rounds r)) [
      | inl stuck ↦
          let never : release d nodes rounds (some r) p ≡ none = rw (release, stuck) refl in
          let bad = sym never ∙ e in absurd (ground arith)
      | inr (kept, w) ↦
          let clean = reset_resource-Clean d nodes rounds r kept w in
          elim (Bool-cases (ltb (length p.arenas) max_kept_arenas)) [
            | inl room ↦
                let done : release d nodes rounds (some r) p
                    ≡ some (record p { arenas = kept ∷ p.arenas }, none) =
                  rw (release, w, room) refl in
                subst Kept (ap (λ o. o.0) (eq_of_some (sym done ∙ e)))
                  (record { few = ground arith; clean = (clean, v.clean) })
            | inr full ↦
                let done : release d nodes rounds (some r) p ≡ some (p, some kept) =
                  rw (release, w, full) refl in
                subst Kept (ap (λ o. o.0) (eq_of_some (sym done ∙ e))) v
          ]
    ]

pub Reach-Kept : {d : Destructors} {block : ℕ → ℕ} {p : Pool} → Reach d block p → Kept p
Reach-Kept {block = block} (made n size) =
    let r = new_arenas_lem block size (min n max_kept_arenas) in
    record { few = omega (arith, r.0); clean = r.1 }
Reach-Kept (acquired {p} ptr r) = (acquire-Kept ptr p (Reach-Kept r)).0
Reach-Kept {d} (released {p} nodes rounds r freed before e) =
    release-Kept d nodes rounds r freed p _ (Reach-Kept before) e

-- The arena that acquire gives, from a pool that any calls of acquire and release led to, has no
-- object whose destructor is still to run, and no memory in use: it has at most one block, none
-- if it has a buffer of a caller, and the range it allocates from is the whole of that block or
-- buffer but the last byte, or there is neither; whatever the destructors of the last owner's
-- objects did.
pub acquired-Clean :
    {d : Destructors} {block : ℕ → ℕ} {p : Pool} (ptr : ℕ)
    → Reach d block p
    → Clean (acquire ptr p).0
acquired-Clean {p = p} ptr r = (acquire-Kept ptr p (Reach-Kept r)).1
