-- ===== src/Threading/Loop.antt =====
-- `parallelFor` of src/sc/threading/parallel_for.hpp: the items of a loop, called in chunks by the owner
-- of the loop and by helpers. How helpers find the loop (`shareParallel`, `finishParallel`) is not part
-- of this model: thread 0 is the owner, the others are helpers from its start on.
pub mod Coverage
pub mod Alone
mod Tests
use structured_chaos.Prelude.{
  ℕ, zero, suc, ◌+◌, ◌-◌, ◌*◌, ◌%◌, ◌≤◌, ◌<◌, ◌≡◌, ◌≢◌, Bool, true, false, ◌&&◌, List, [], ◌∷◌,
  ◌==◌, ltb, leb, if◌then◌else◌, min, max, write, word, add_size,
}

-- A call of the function, as (first, last).
pub record Call : Type 0 where
  pub first : ℕ
  pub last : ℕ

-- `std::min(first + grain, count)`
abbrev pub chunk_end : ℕ → ℕ → ℕ → ℕ
chunk_end count grain first = min (add_size first grain) count

-- The loop without helpers, from first on, for at most fuel chunks, if no call throws.
unfoldable pub alone : ℕ → ℕ → ℕ → ℕ → List Call
alone count grain zero first = []
alone count grain (suc fuel) first =
    let rest = alone count grain fuel (add_size first grain) in
    if ltb first count
    then record { first = first; last = chunk_end count grain first } ∷ rest
    else []

-- The calls of `parallelFor` when nothing is shared: no item, one chunk, or no helper. A chunk has at
-- least one item, so fuel for as many chunks as items is enough.
unfoldable pub parallel_for_alone : ℕ → ℕ → List Call
unfolding alone
parallel_for_alone count given_grain =
    let grain = max given_grain 1 in
    if leb count grain
    then if count == 0 then [] else record { first = 0; last = count } ∷ []
    else alone count grain count 0

-- Where a thread is in `job.run`.
pub data Local : Type 0 where
  ready : Local
  in_call : Local
  failing : Local
  finished : Local
  stopped : Local

-- `Job`, with the calls that were started, the newest first; `failed` stands for the flag and the error.
pub record Job : Type 0 where
  pub next : ℕ
  pub failed : Bool
  pub locals : ℕ → Local
  pub calls : List Call

abbrev pub new_job : Job
new_job = record { next = 0; failed = false; locals = λ _. ready; calls = [] }

abbrev pub go_to : ℕ → Local → Job → Job
go_to t l j = record j { locals = write j.locals t l }

-- `next.fetch_add(grain)` and what follows from it.
unfoldable pub take_chunk : ℕ → ℕ → ℕ → Job → Job
take_chunk count grain t j =
    let first = j.next in
    let taken = record j { next = add_size first grain } in
    if leb count first
    then go_to t finished taken
    else go_to t in_call (record taken {
      calls = record { first = first; last = chunk_end count grain first } ∷ taken.calls;
    })

-- One step of a thread of the loop with so many threads.
pub data Step (count grain threads : ℕ) (j : Job) : Job → Type 0 where
  takes :
      (t : ℕ)
      → t < threads
      → j.locals t ≡ ready
      → Step count grain threads j (take_chunk count grain t j)
  returns : (t : ℕ) → j.locals t ≡ in_call → Step count grain threads j (go_to t ready j)
  throws :
      (t : ℕ)
      → j.locals t ≡ in_call
      → Step count grain threads j (go_to t failing (record j { failed = true }))
  ends_loop :
      (t : ℕ)
      → j.locals t ≡ failing
      → Step count grain threads j (go_to t finished (record j { next = count }))
  stops : (t : ℕ) → t ≢ 0 → j.locals t ≡ ready → Step count grain threads j (go_to t stopped j)

pub data Reach (count grain threads : ℕ) : Job → Type 0 where
  started : Reach count grain threads new_job
  later :
      {i j : Job}
      → Reach count grain threads i
      → Step count grain threads i j
      → Reach count grain threads j

-- 1 for an item from lo on and before hi.
abbrev pub in_range : ℕ → ℕ → ℕ → ℕ
in_range lo hi i = if leb lo i && ltb i hi then 1 else 0

-- How many of the calls have the item.
abbrev pub covers : ℕ → List Call → ℕ
covers i [] = 0
covers i (c ∷ cs) = in_range c.first c.last i + covers i cs
