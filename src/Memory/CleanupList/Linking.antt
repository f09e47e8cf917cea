-- ===== src/Memory/CleanupList/Linking.antt =====
-- Calls of `remember` of cleanup_list.hpp by several threads.
use structured_chaos.Prelude.{ℕ, ◌≡◌, refl, ap, ◌∙◌, subst, List, ◌∷◌, write, all-write, arith}
use structured_chaos.Memory.CleanupList.{
  read_head, swap_head, Phase, to_come, tries, linked, Calls, Step, begins, links, fails, Reach,
  none_yet, steps,
}
use structured_chaos.Memory.CleanupList.Chain.{times, Chain, Chain-write}

-- 1 for a node that is linked.
abbrev pub linked_times : Phase → ℕ
linked_times to_come = 0
linked_times tries = 0
linked_times linked = 1

-- The list is that of the linked nodes, each once, newest first.
pub record Linked (c : Calls) : Type 0 where
  pub chain : Chain c.list.next c.list.head c.order
  pub once : (n : ℕ) → times n c.order ≡ linked_times (c.phase n)

link_once :
    (phase : ℕ → Phase) (order : List ℕ) (n : ℕ)
    → ((m : ℕ) → times m order ≡ linked_times (phase m))
    → linked_times (phase n) ≡ 0
    → (m : ℕ) → times m (n ∷ order) ≡ linked_times (write phase n linked m)
link_once phase order n once new m =
    all-write (λ j p. times j (n ∷ order) ≡ linked_times p) phase n linked
      (let out = once n ∙ new in ground arith) (λ j other. let same = once j in ground arith) m

Step-Linked : (c d : Calls) → Linked c → Step c d → Linked d
unfolding read_head swap_head
Step-Linked c _ inv (begins n p) = record {
  chain =
      Chain-write c.list.next c.list.head c.order n c.list.head (inv.once n ∙ ap linked_times p)
        inv.chain;
  once =
      all-write (λ j p. times j c.order ≡ linked_times p) c.phase n tries
        (inv.once n ∙ ap linked_times p) (λ j other. inv.once j);
}
Step-Linked c _ inv (links n p e) = record {
  chain = (refl, subst (λ first. Chain c.list.next first c.order) e inv.chain);
  once = link_once c.phase c.order n inv.once (ap linked_times p);
}
Step-Linked c _ inv (fails n p) = record {
  chain =
      Chain-write c.list.next c.list.head c.order n c.list.head (inv.once n ∙ ap linked_times p)
        inv.chain;
  once = inv.once;
}

-- linked
pub Reach-Linked : (c : Calls) → Reach c → Linked c
Reach-Linked _ none_yet = record { chain = refl; once = λ n. refl }
Reach-Linked d (steps c _ before step) = Step-Linked c d (Reach-Linked c before) step
