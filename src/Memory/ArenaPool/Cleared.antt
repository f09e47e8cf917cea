-- ===== src/Memory/ArenaPool/Cleared.antt =====
-- An arena of monotonic_resource.cpp after a reset.
use structured_chaos.Prelude.{
  ℕ, ◌+◌, ◌-◌, ◌≡◌, ◌≢◌, ◌⊎◌, refl, sym, ap, ◌∙◌, subst, inl, inr, List, [], ◌∷◌, ◌==◌, ◌||◌,
  Bool-cases, arith,
}
use structured_chaos.Memory.Arena.{Block, Arena, reset, kept_blocks, start_over, install_range}

-- The range to allocate from is the whole of a block but its last byte; there is none if the block is empty.
abbrev pub Whole : Block → Arena → Type 0
Whole b a =
    ((b.ptr ≢ 0) × (b.size ≢ 0) × (a.current ≡ b.ptr) × (a.end ≡ b.ptr + b.size - 1))
    ⊎ (((b.ptr ≡ 0) ⊎ (b.size ≡ 0)) × (a.current ≡ 0) × (a.end ≡ 0))

-- The whole of the caller's buffer is free and there is no block, or the whole of the one block is free,
-- or there is neither.
pub data Cleared (a : Arena) : Type 0 where
  in_buffer : a.initial.ptr ≢ 0 → a.blocks ≡ [] → Whole a.initial a → Cleared a
  in_block : (b : Block) → a.initial.ptr ≡ 0 → a.blocks ≡ b ∷ [] → Whole b a → Cleared a
  nowhere : a.initial.ptr ≡ 0 → a.blocks ≡ [] → a.current ≡ 0 → a.end ≡ 0 → Cleared a

-- The range and the members that installRange leaves alone.
install_range-Whole :
    (b : Block) (a : Arena)
    → Whole b (install_range b.ptr b.size a)
      × ((install_range b.ptr b.size a).blocks ≡ a.blocks)
      × ((install_range b.ptr b.size a).initial ≡ a.initial)
install_range-Whole b a = elim (Bool-cases (b.ptr == 0 || b.size == 0)) [
  | inl nothing ↦ rw (nothing) (inr (ground arith, refl, refl), refl, refl)
  | inr there ↦ rw (there) (inl (ground arith, ground arith, refl, refl), refl, refl)
]

no_block-Cleared :
    (a : Arena) → a.blocks ≡ [] → Cleared (install_range a.initial.ptr a.initial.size a)
no_block-Cleared a e =
    let (whole, blocks, same) = install_range-Whole a.initial a in
    elim (Bool-cases (a.initial.ptr == 0)) [
      | inl null ↦
          let is_null : a.initial.ptr ≡ 0 = ground arith in
          elim whole [
            | inl (there, _, _, _) ↦ absurd (there is_null)
            | inr (_, no_current, no_end) ↦
                nowhere (ap (λ i. i.ptr) same ∙ is_null) (blocks ∙ e) no_current no_end
          ]
      | inr there ↦
          let n : a.initial.ptr ≢ 0 = ground arith in
          in_buffer (subst (λ i. i.ptr ≢ 0) (sym same) n) (blocks ∙ e)
            (subst (λ i. Whole i (install_range a.initial.ptr a.initial.size a)) (sym same) whole)
    ]

pub one_block-Cleared :
    (b : Block) (a : Arena)
    → a.blocks ≡ b ∷ []
    → a.initial.ptr ≡ 0
    → Cleared (install_range b.ptr b.size a)
one_block-Cleared b a e is_null =
    let (whole, blocks, same) = install_range-Whole b a in
    in_block b (ap (λ i. i.ptr) same ∙ is_null) (blocks ∙ e) whole

members-Cleared :
    (c e : ℕ) (bs : List Block) (i : Block) (n : ℕ)
    → let a : Arena = record { current = c; end = e; blocks = bs; initial = i; block_size = n } in
      Cleared (reset a)
unfolding reset kept_blocks start_over
members-Cleared c e [] i n =
    no_block-Cleared (record { current = c; end = e; blocks = []; initial = i; block_size = n })
      refl
members-Cleared c e (b ∷ bs) i n = elim (Bool-cases (i.ptr == 0)) [
  | inl null ↦ rw (null) (
      rw (null) (
        one_block-Cleared b
          (record { current = c; end = e; blocks = b ∷ []; initial = i; block_size = n }) refl
          (ground arith)))
  | inr there ↦ rw (there) (
      no_block-Cleared (record { current = c; end = e; blocks = []; initial = i; block_size = n })
        refl)
]

pub reset-Cleared : (a : Arena) → Cleared (reset a)
reset-Cleared a = members-Cleared a.current a.end a.blocks a.initial a.block_size
