-- ===== src/Memory/DeletionQueue.antt =====
-- src/sc/memory/deferred.hpp: functions that are called some frames later. `push` puts one on the list
-- of its slot with one compare-exchange, so pushes of several threads are whole steps, in some order;
-- beginFrame and flushAll run with nothing next to them. A slot is its list, newest first.
pub mod Flush
pub mod Frames
pub mod Shutdown
mod Tests
use structured_chaos.Prelude.{
  ℕ, zero, suc, ◌+◌, ◌%◌, List, [], ◌∷◌, ◌++◌, reverse, Option, none, some, ◌==◌, if◌then◌else◌,
}

-- A function of the queue: its name, and the functions it pushes while it is called, in order.
mutual
  pub data Job : Type 0 where
    job : ℕ → Jobs → Job

  pub data Jobs : Type 0 where
    nil : Jobs
    cons : Job → Jobs → Jobs

-- `DeletionQueue`
pub record Queue : Type 0 where
  pub frames_in_flight : ℕ
  pub slots : ℕ → List Job
  pub frame : ℕ

abbrev pub update : (ℕ → List Job) → ℕ → List Job → ℕ → List Job
update slots i l j = if i == j then l else slots j

-- The constructor.
abbrev pub init : ℕ → Queue
init n = record { frames_in_flight = n; slots = λ _. []; frame = 0 }

abbrev pub slot_of : Queue → ℕ → ℕ
slot_of q frame = frame % q.frames_in_flight

-- `push`
abbrev pub push : Job → Queue → Queue
push j q = record q { slots = update q.slots (slot_of q q.frame) (j ∷ q.slots (slot_of q q.frame)) }

-- The pushes of a function that is called.
unfoldable pub push_jobs : Jobs → Queue → Queue
push_jobs nil q = q
push_jobs (cons j js) q = push_jobs js (push j q)

-- The inner loop of `flush`, oldest first: the names that were called, and the queue.
unfoldable pub call_all : List Job → Queue → List ℕ × Queue
call_all [] q = ([], q)
call_all (job n js ∷ rest) q = let r = call_all rest (push_jobs js q) in (n ∷ r.0, r.1)

-- One turn of the outer loop of `flush`: the slot is empty while the functions of its list are called,
-- after it was turned around.
unfoldable pub turn : List Job → ℕ → Queue → List ℕ × Queue
turn l i q = call_all (reverse l) (record q { slots = update q.slots i [] })

-- The outer loop of `flush`: takes the whole list of the slot, as long as there is one. `none` means
-- that the fuel ran out.
unfoldable pub flush : ℕ → ℕ → Queue → Option (List ℕ × Queue)
flush zero i q = none
flush (suc fuel) i q = elim (q.slots i) [
  | [] ↦ some ([], q)
  | j ∷ js ↦
      let r = turn (j ∷ js) i q in
      elim (flush fuel i r.1) [ none ↦ none | some (called, q') ↦ some (r.0 ++ called, q') ]
]

-- `beginFrame`
unfoldable pub begin_frame : ℕ → ℕ → Queue → Option (List ℕ × Queue)
begin_frame fuel frame q = flush fuel (slot_of q frame) (record q { frame = frame })

-- The loop of `flushAll` over `count` slots from `slot` on.
unfoldable pub flush_slots : ℕ → ℕ → ℕ → Queue → Option (List ℕ × Queue)
flush_slots fuel zero slot q = some ([], q)
flush_slots fuel (suc count) slot q = elim (flush fuel slot q) [
  | none ↦ none
  | some (called, q') ↦ elim (flush_slots fuel count (slot + 1) q') [
    | none ↦ none
    | some (more, q'') ↦ some (called ++ more, q'')
  ]
]

-- `flushAll`, which the destructor calls as well.
unfoldable pub flush_all : ℕ → Queue → Option (List ℕ × Queue)
flush_all fuel q = flush_slots fuel q.frames_in_flight 0 q
