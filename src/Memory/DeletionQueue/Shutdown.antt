-- ===== src/Memory/DeletionQueue/Shutdown.antt =====
-- `flushAll` of deferred.hpp, which the destructor calls: it goes through the slots once.
use structured_chaos.Prelude.{
  ℕ, zero, suc, ◌+◌, ◌≤◌, ◌<◌, ◌≡◌, ◌≢◌, refl, sym, ap, ◌∙◌, List, [], ◌∷◌, ◌++◌, map, reverse,
  some, arith, All, All-reverse,
}
use mathlib.Core.Path.{subst}
use native.Mathlib.Decide.{ℕ_discrete}
use structured_chaos.Memory.DeletionQueue.{
  Job, job, Jobs, nil, cons, Queue, update, slot_of, push, push_jobs, call_all, turn, flush,
  flush_slots, flush_all,
}
use structured_chaos.Memory.DeletionQueue.Flush.{flush-nil, flush-cons}
use structured_chaos.Memory.DeletionQueue.Frames.{name}

-- The functions push nothing while they are called.
abbrev pushes : Job → Jobs
pushes (job n js) = js

abbrev pub Quiet : List Job → Type 0
Quiet l = All (λ j. pushes j ≡ nil) l

call_all-Quiet : (l : List Job) (q : Queue) → Quiet l → call_all l q ≡ (map name l, q)
unfolding call_all push_jobs
call_all-Quiet [] q h = refl
call_all-Quiet (job n js ∷ rest) q h =
    rw (h.0, call_all, push_jobs) (rw (call_all-Quiet rest q h.1))

emptied : ℕ → Queue → Queue
emptied i q = record q { slots = update q.slots i [] }

turn-Quiet :
    (l : List Job) (i : ℕ) (q : Queue) → Quiet l → turn l i q ≡ (map name (reverse l), emptied i q)
unfolding turn emptied
turn-Quiet l i q h = call_all-Quiet (reverse l) (emptied i q) (All-reverse _ l h)

-- What a flush of one slot gives: every function is called, and nothing else changes.
flush-Quiet :
    (fuel i : ℕ) (l : List Job) (q : Queue)
    → q.slots i ≡ l
    → Quiet l
    → (q' : Queue) × (flush (suc (suc fuel)) i q ≡ some (map name (reverse l) ++ [], q'))
      × (q'.slots i ≡ [])
      × ((k : ℕ) → i ≢ k → q'.slots k ≡ q.slots k)
      × (q'.frames_in_flight ≡ q.frames_in_flight)
unfolding emptied
flush-Quiet fuel i [] q s h = (q, flush-nil (suc fuel) i q s, s, λ k ne. refl, refl)
flush-Quiet fuel i (j ∷ js) q s h =
    let t = turn-Quiet (j ∷ js) i q h in
    let again : flush (suc fuel) i (turn (j ∷ js) i q).1 ≡ some ([], emptied i q) =
      rw t (flush-nil fuel i (emptied i q) (ground arith)) in
    (
      emptied i q,
      flush-cons (suc fuel) i q j js s again ∙ ap (λ r. some (r.0 ++ [], emptied i q)) t,
      ground arith,
      λ k ne. ground arith,
      refl,
    )

Quiet-after :
    (slot : ℕ) (q q' : Queue)
    → ((i : ℕ) → Quiet (q.slots i))
    → q'.slots slot ≡ []
    → ((k : ℕ) → slot ≢ k → q'.slots k ≡ q.slots k)
    → (i : ℕ) → Quiet (q'.slots i)
Quiet-after slot q q' h gone rest i = elim (ℕ_discrete slot i) [
  | yes e ↦ subst Quiet (sym gone ∙ ap q'.slots e) tt
  | no ne ↦ subst Quiet (sym (rest i ne)) (h i)
]

flush_slots-suc :
    (fuel count slot : ℕ) (q q' q'' : Queue) (called more : List ℕ)
    → flush fuel slot q ≡ some (called, q')
    → flush_slots fuel count (slot + 1) q' ≡ some (more, q'')
    → flush_slots fuel (suc count) slot q ≡ some (called ++ more, q'')
unfolding flush_slots
flush_slots-suc fuel count slot q q' q'' called more e f = rw (e, flush_slots, f)

flush_slots-Quiet :
    (fuel count slot : ℕ) (q : Queue)
    → ((i : ℕ) → Quiet (q.slots i))
    → (called : List ℕ) × (q' : Queue) × (flush_slots (suc (suc fuel)) count slot q
        ≡ some (called, q'))
      × ((i : ℕ) → i < slot → q'.slots i ≡ q.slots i)
      × ((i : ℕ) → slot ≤ i → i < slot + count → q'.slots i ≡ [])
unfolding flush_slots
flush_slots-Quiet fuel zero slot q h = ([], q, refl, λ i l. refl, λ i l u. absurd (omega arith))
flush_slots-Quiet fuel (suc count) slot q h =
    let (q', ran, gone, rest, c) = flush-Quiet fuel slot (q.slots slot) q refl (h slot) in
    let (more, q'', ran', below, above) =
      flush_slots-Quiet fuel count (slot + 1) q' (Quiet-after slot q q' h gone rest) in
    (
      _,
      q'',
      flush_slots-suc (suc (suc fuel)) count slot q q' q'' _ more ran ran',
      λ i l. below i (omega arith) ∙ rest i (omega arith),
      λ i l u. elim (ℕ_discrete slot i) [
        | yes e ↦ below i (omega arith) ∙ ap q'.slots (sym e) ∙ gone
        | no ne ↦ above i (omega arith) (omega arith)
      ],
    )

-- If no function that is left pushes another one, flushAll ends with every slot empty.
pub flush_all-Quiet :
    (fuel i : ℕ) (q : Queue)
    → ((i : ℕ) → Quiet (q.slots i))
    → i < q.frames_in_flight
    → (called : List ℕ) × (q' : Queue) × (flush_all (suc (suc fuel)) q ≡ some (called, q'))
      × (q'.slots i ≡ [])
unfolding flush_all
flush_all-Quiet fuel i q h l =
    let (called, q', ran, _, above) = flush_slots-Quiet fuel q.frames_in_flight 0 q h in
    (called, q', ran, above i (omega arith) (omega arith))

-- The queue after the only function, in slot `k`, pushed another one.
abbrev left_over : ℕ → Job → Queue → Queue
left_over k j q = push j (record q { slots = update q.slots k [] })

flush-late :
    (fuel k a : ℕ) (j : Job) (q : Queue)
    → q.slots k ≡ job a (cons j nil) ∷ []
    → slot_of q q.frame ≢ k
    → flush (suc (suc fuel)) k q ≡ some (a ∷ [], left_over k j q)
unfolding turn call_all push_jobs
flush-late fuel k a j q e ne =
    flush-cons (suc fuel) k q (job a (cons j nil)) [] e
      (flush-nil fuel k (left_over k j q) (ground arith))

flush_slots-zero : (fuel slot : ℕ) (q : Queue) → flush_slots fuel 0 slot q ≡ some ([], q)
unfolding flush_slots
flush_slots-zero fuel slot q = refl

flush_slots-late :
    (fuel d slot k a : ℕ) (j : Job) (q : Queue)
    → slot + d ≡ k
    → ((i : ℕ) → i < k → q.slots i ≡ [])
    → q.slots k ≡ job a (cons j nil) ∷ []
    → slot_of q q.frame ≢ k
    → flush_slots (suc (suc fuel)) (suc d) slot q ≡ some (a ∷ [], left_over k j q)
flush_slots-late fuel zero slot k a j q c h e ne =
    let same : slot ≡ k = omega arith in
    flush_slots-suc (suc (suc fuel)) 0 slot q (left_over k j q) (left_over k j q) (a ∷ []) []
      (rw same (flush-late fuel k a j q e ne))
      (flush_slots-zero (suc (suc fuel)) (slot + 1) (left_over k j q))
flush_slots-late fuel (suc d) slot k a j q c h e ne =
    flush_slots-suc (suc (suc fuel)) (suc d) slot q q (left_over k j q) [] (a ∷ [])
      (flush-nil (suc fuel) slot q (h slot (omega arith)))
      (flush_slots-late fuel d (slot + 1) k a j q (omega arith) h e ne)

-- If the only function left lies in the last slot and pushes another one while the slot of the
-- frame is an earlier one, flushAll ends with the pushed function uncalled in that slot.
pub flush_all-leaves :
    (fuel k a : ℕ) (j : Job) (q : Queue)
    → q.frames_in_flight ≡ suc k
    → slot_of q q.frame < k
    → ((i : ℕ) → i < k → q.slots i ≡ [])
    → q.slots k ≡ job a (cons j nil) ∷ []
    → (q' : Queue) × (flush_all (suc (suc fuel)) q ≡ some (a ∷ [], q'))
      × (q'.slots (slot_of q q.frame) ≡ j ∷ [])
unfolding flush_all
flush_all-leaves fuel k a j q c l h e = (
  left_over k j q,
  ap (λ n. flush_slots (suc (suc fuel)) n 0 q) c
      ∙ flush_slots-late fuel k 0 k a j q (omega arith) h e (omega arith),
  ground (arith, h (slot_of q q.frame)),
)
