-- ===== src/Memory/CleanupList.antt =====
-- `CleanupList` of src/sc/memory/cleanup_list.hpp: the objects whose destructors have to run. A node is a
-- number that stands for its address and for the object in front of it.
pub mod Chain
pub mod Linking
pub mod Running
mod Tests
use structured_chaos.Prelude.{
  ℕ, zero, suc, Option, none, some, List, [], ◌∷◌, ◌++◌, ◌≡◌, ◌≢◌, write,
}

-- `m_head` and the `next` of each node.
pub record CleanupList : Type 0 where
  pub head : Option ℕ
  pub next : ℕ → Option ℕ

abbrev pub empty_list : CleanupList
empty_list = record { head = none; next = λ n. none }

-- The node is made, and `next` is what m_head was read as.
unfoldable pub read_head : ℕ → CleanupList → CleanupList
read_head n s = record s { next = write s.next n s.head }

-- The compare-exchange that succeeds.
unfoldable pub swap_head : ℕ → CleanupList → CleanupList
swap_head n s = record s { head = some n }

-- `remember` without another thread between its two accesses of m_head.
unfoldable pub remember : ℕ → CleanupList → CleanupList
unfolding read_head swap_head
remember n s = swap_head n (read_head n s)

-- Where the call of `remember` for a node is.
pub data Phase : Type 0 where
  to_come : Phase
  tries : Phase
  linked : Phase

-- The list with its calls, each for a node of its own, and the nodes in the order they were linked,
-- newest first.
pub record Calls : Type 0 where
  pub list : CleanupList
  pub phase : ℕ → Phase
  pub order : List ℕ

abbrev pub no_calls : Calls
no_calls = record { list = empty_list; phase = λ n. to_come; order = [] }

abbrev pub begin : ℕ → Calls → Calls
begin n c = record c { list = read_head n c.list; phase = write c.phase n tries }

abbrev pub link : ℕ → Calls → Calls
link n c = record c {
  list = swap_head n c.list;
  phase = write c.phase n linked;
  order = n ∷ c.order;
}

abbrev pub retry : ℕ → Calls → Calls
retry n c = record c { list = read_head n c.list }

-- One access of m_head in `remember` by any thread. The weak compare-exchange may fail for no reason.
pub data Step (c : Calls) : Calls → Type 0 where
  begins : (n : ℕ) → c.phase n ≡ to_come → Step c (begin n c)
  links : (n : ℕ) → c.phase n ≡ tries → c.list.head ≡ c.list.next n → Step c (link n c)
  fails : (n : ℕ) → c.phase n ≡ tries → Step c (retry n c)

pub data Reach : Calls → Type 0 where
  none_yet : Reach no_calls
  steps : (c d : Calls) → Reach c → Step c d → Reach d

-- Nodes that a destructor remembers, one after the other.
unfoldable pub remember_all : List ℕ → CleanupList → CleanupList
unfolding remember
remember_all [] s = s
remember_all (n ∷ ns) s = remember_all ns (remember n s)

-- The inner loop of `runAll` from a node on, for so many nodes: the list, and which were destroyed.
-- `made` says what the destructor of an object remembers.
unfoldable pub walk : (ℕ → List ℕ) → ℕ → Option ℕ → CleanupList → Option (CleanupList × List ℕ)
unfolding remember_all
walk made zero first s = none
walk made (suc fuel) none s = some (s, [])
walk made (suc fuel) (some n) s = elim (walk made fuel (s.next n) (remember_all (made n) s)) [
  | none ↦ none
  | some (s', destroyed) ↦ some (s', n ∷ destroyed)
]

-- `runAll`, for so many rounds of at most so many nodes.
unfoldable pub run_all : (ℕ → List ℕ) → ℕ → ℕ → CleanupList → Option (CleanupList × List ℕ)
unfolding walk
run_all made nodes zero s = none
run_all made nodes (suc rounds) s = elim s.head [
  | none ↦ some (s, [])
  | some n ↦ elim (walk made nodes (some n) (record s { head = none })) [
    | none ↦ none
    | some (s', destroyed) ↦ elim (run_all made nodes rounds s') [
      | none ↦ none
      | some (s'', later) ↦ some (s'', destroyed ++ later)
    ]
  ]
]
