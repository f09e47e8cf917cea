-- ===== src/Ecs/Relations/Descendants.antt =====
-- The loop of `forEachDescendant` of relation.hpp against the tree of the entities.
use structured_chaos.Prelude.{
  ℕ, zero, suc, ◌+◌, ◌-◌, ◌≡◌, refl, ap, ◌∙◌, Option, some, List, [], ◌∷◌, ◌++◌, reverse, length,
  length-append, take, take-append_left, take-length, drop-append_length, All, arith,
}
use mathlib.Core.List.{append_assoc, append-nil, reverse_aux, reverse_aux-eq, reverse-reverse}
use structured_chaos.Ecs.Relations.{
  for_each_related, push_all, reverse_from, descend, for_each_descendant,
}

module _ (related : ℕ → Option (List ℕ)) where
  push_all-reverse :
      (sources stack : List ℕ) → push_all related sources stack ≡ reverse sources ++ stack
  unfolding push_all
  push_all-reverse sources stack = reversed sources stack ∙ reverse_aux-eq sources stack
    where
      reversed :
          (sources stack : List ℕ) → push_all related sources stack ≡ reverse_aux sources stack
      reversed [] stack = refl
      reversed (source ∷ sources) stack = reversed sources (source ∷ stack)

  -- Pushed and turned around, the sources lie in front of the stack in their order.
  turned :
      (sources stack : List ℕ)
      → reverse_from related (length stack) (push_all related sources stack) ≡ sources ++ stack
  unfolding reverse_from
  turned sources stack =
      let back = reverse sources in
      let pushed : length (back ++ stack) - length stack ≡ length back =
        omega (arith, length-append back stack) in
      let front : take (length back) (back ++ stack) ≡ back =
        take-append_left back stack (length back) (omega arith) ∙ take-length back in
      rw
        (
          push_all-reverse sources stack,
          pushed,
          front,
          drop-append_length back stack,
          reverse-reverse sources,
        )
        refl

  -- No chain of sources of sources that starts at the entity has more than so many links.
  abbrev pub NoDeeper : ℕ → ℕ → Type 0
  NoDeeper zero entity = for_each_related related entity ≡ []
  NoDeeper (suc depth) entity = All (NoDeeper depth) (for_each_related related entity)

  -- The entities, each in front of all that stand in the relation to it, down to a depth.
  abbrev pub preorder : ℕ → List ℕ → List ℕ
  preorder depth [] = []
  preorder zero (entity ∷ entities) = entity ∷ preorder zero entities
  preorder (suc depth) (entity ∷ entities) =
      entity ∷ (preorder depth (for_each_related related entity) ++ preorder (suc depth) entities)

  -- One round.
  round :
      (fuel fuel' entity : ℕ) (stack called : List ℕ)
      → fuel' ≡ suc fuel
      → descend related fuel (for_each_related related entity ++ stack) ≡ some called
      → descend related fuel' (entity ∷ stack) ≡ some (entity ∷ called)
  unfolding descend
  round fuel fuel' entity stack called more e =
      rw (more, descend, turned (for_each_related related entity) stack, e) refl

  -- Entities on the stack are taken off with all below them, before the rest of it.
  preorder-descend :
      (depth : ℕ) (entities stack : List ℕ) (fuel : ℕ) (called : List ℕ)
      → All (NoDeeper depth) entities
      → descend related fuel stack ≡ some called
      → descend related (length (preorder depth entities) + fuel) (entities ++ stack)
        ≡ some (preorder depth entities ++ called)
  preorder-descend depth [] stack fuel called h e =
      let none_taken : 0 + fuel ≡ fuel = omega arith in rw (none_taken) e
  preorder-descend zero (entity ∷ entities) stack fuel called (leaf, h) e =
      let rest = preorder-descend zero entities stack fuel called h e in
      round (length (preorder zero entities) + fuel) _ entity (entities ++ stack)
        (preorder zero entities ++ called) (omega arith) (rw (leaf) rest)
  preorder-descend (suc depth) (entity ∷ entities) stack fuel called (below, h) e =
      let sources = for_each_related related entity in
      let rest = preorder-descend (suc depth) entities stack fuel called h e in
      let inner =
        preorder-descend depth sources (entities ++ stack)
          (length (preorder (suc depth) entities) + fuel) (preorder (suc depth) entities ++ called)
          below rest in
      let fuels : length (preorder depth sources ++ preorder (suc depth) entities) + fuel
          ≡ length (preorder depth sources) + (length (preorder (suc depth) entities) + fuel) =
        omega (arith, length-append (preorder depth sources) (preorder (suc depth) entities)) in
      round (length (preorder depth sources ++ preorder (suc depth) entities) + fuel) _ entity
        (entities ++ stack) ((preorder depth sources ++ preorder (suc depth) entities) ++ called)
        (omega arith)
        (rw (fuels, append_assoc (preorder depth sources) (preorder (suc depth) entities) called)
          inner)

  -- The loop of forEachDescendant, with its stack, ends after one round for each entity and one
  -- more, and calls the function in the preorder of the tree below the root: each entity before all
  -- that stand in the relation to it and these before its later siblings. No chain of sources that
  -- starts below the root is longer than the depth.
  pub for_each_descendant-preorder :
      (depth root : ℕ)
      → All (NoDeeper depth) (for_each_related related root)
      → for_each_descendant related
          (length (preorder depth (for_each_related related root)) + 1)
          root
        ≡ some (preorder depth (for_each_related related root))
  unfolding for_each_descendant descend
  for_each_descendant-preorder depth root h =
      let sources = for_each_related related root in
      ap (descend related (length (preorder depth sources) + 1)) (turned sources [])
      ∙ preorder-descend depth sources [] 1 [] h refl
      ∙ ap some (append-nil (preorder depth sources))
