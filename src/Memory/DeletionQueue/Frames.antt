-- ===== src/Memory/DeletionQueue/Frames.antt =====
-- When a function of deferred.hpp is called: what is pushed in a frame waits, untouched, until its
-- slot comes round again, and is then called first and in the order it was pushed.
use structured_chaos.Prelude.{
  ℕ, zero, suc, ◌+◌, ◌-◌, ◌%◌, ◌<◌, ◌≡◌, ◌≢◌, inl, inr, refl, sym, ap, ◌∙◌, List, [], ◌∷◌, ◌++◌,
  map, reverse, Option, none, some, arith, Option-cases, length,
}
use mathlib.Core.List.{append-nil, append_assoc, reverse-cons, reverse-reverse}
use native.Mathlib.Nat.{mod-add-mod, add-mod_right, mod-eq_of_lt, mod-eq-sub-mod, mod-lt}
use native.Mathlib.Decide.{dec_lt}
use structured_chaos.Memory.DeletionQueue.{
  Job, job, Queue, update, slot_of, push, push_jobs, call_all, turn, flush, begin_frame,
}
use structured_chaos.Memory.DeletionQueue.Flush.{call_all-frame, call_all-slots}

abbrev pub name : Job → ℕ
name (job n js) = n

-- A caller pushes a row of functions, one after the other.
unfoldable pub push_all : List Job → Queue → Queue
push_all [] q = q
push_all (j ∷ js) q = push_all js (push j q)

-- One frame after the other: beginFrame, then the pushes of the frame.
unfoldable pub rounds : ℕ → ℕ → List (List Job) → Queue → Option Queue
rounds fuel frame [] q = some q
rounds fuel frame (js ∷ rest) q = elim (begin_frame fuel frame q) [
  | none ↦ none
  | some (called, q') ↦ rounds fuel (suc frame) rest (push_all js q')
]

call_all-names : (l : List Job) (q : Queue) → (call_all l q).0 ≡ map name l
unfolding call_all
call_all-names [] q = refl
call_all-names (job n js ∷ rest) q = ap (λ t. n ∷ t) (call_all-names rest (push_jobs js q))

push_all-slot :
    (js l : List Job) (q : Queue) (i : ℕ)
    → slot_of q q.frame ≡ i
    → q.slots i ≡ l
    → (push_all js q).slots i ≡ reverse js ++ l
unfolding push_all
push_all-slot [] l q i h e = e
push_all-slot (j ∷ js) l q i h e = ground (
  arith,
  push_all-slot js (j ∷ l) (push j q) i,
  reverse-cons j js,
  append_assoc (reverse js) (j ∷ []) l,
)

push_all-slots :
    (js : List Job) (q : Queue) (i : ℕ)
    → slot_of q q.frame ≢ i
    → (push_all js q).slots i ≡ q.slots i
unfolding push_all
push_all-slots [] q i h = refl
push_all-slots (j ∷ js) q i h = ground (arith, push_all-slots js (push j q) i h)

push_all-frame :
    (js : List Job) (q : Queue)
    → ((push_all js q).frame ≡ q.frame) × ((push_all js q).frames_in_flight ≡ q.frames_in_flight)
unfolding push_all
push_all-frame [] q = (refl, refl)
push_all-frame (j ∷ js) q = push_all-frame js (push j q)

-- What an operation on another slot leaves as it was.
abbrev pub Keeps : ℕ → Queue → Queue → Type 0
Keeps k q q' =
    (q'.slots k ≡ q.slots k) × (q'.frame ≡ q.frame) × (q'.frames_in_flight ≡ q.frames_in_flight)

Keeps-trans : {k : ℕ} (q r s : Queue) → Keeps k q r → Keeps k r s → Keeps k q s
Keeps-trans q r s h g = (g.0 ∙ h.0, g.1 ∙ h.1, g.2 ∙ h.2)

turn-Keeps :
    (l : List Job) (i k : ℕ) (q : Queue) → slot_of q q.frame ≢ k → i ≢ k → Keeps k q (turn l i q).1
unfolding turn
turn-Keeps l i k q h ne =
    let c = record q { slots = update q.slots i [] } in
    (
      call_all-slots (reverse l) c k h ∙ ground arith,
      (call_all-frame (reverse l) c).0,
      (call_all-frame (reverse l) c).1,
    )

-- `flush` of the slot of the frame leaves the other slots alone.
flush-Keeps :
    (fuel i k : ℕ) (q q' : Queue) (called : List ℕ)
    → slot_of q q.frame ≡ i
    → i ≢ k
    → flush fuel i q ≡ some (called, q')
    → Keeps k q q'
unfolding flush
flush-Keeps zero i k q q' called h ne e = absurd (ground arith)
flush-Keeps (suc fuel) i k q q' called h ne e =
    by_slot (q.slots i) refl (λ l. turn-Keeps l i k q (λ s. ne (sym h ∙ s)) ne)
      (λ l c. flush-Keeps fuel i k (turn l i q).1 q' c)
  where
    by_slot :
        (l : List Job)
        → q.slots i ≡ l
        → ((l : List Job) → Keeps k q (turn l i q).1)
        → ((l : List Job) (c : List ℕ)
            → slot_of (turn l i q).1 (turn l i q).1.frame ≡ i
            → i ≢ k
            → flush fuel i (turn l i q).1 ≡ some (c, q')
            → Keeps k (turn l i q).1 q')
        → Keeps k q q'
    by_slot [] s one again = ground arith
    by_slot (j ∷ js) s one again = elim (Option-cases (flush fuel i (turn (j ∷ js) i q).1)) [
      | inl none_left ↦ absurd (ground arith)
      | inr (r, ran) ↦
          Keeps-trans q (turn (j ∷ js) i q).1 q' (one (j ∷ js))
            (again (j ∷ js) r.0 (rw ((one (j ∷ js)).1, (one (j ∷ js)).2) h) ne (ground arith))
    ]

wrapped_ne : (n a k : ℕ) → a < n → 0 < k → k < n → (a + k) % n ≢ a
wrapped_ne n a k h p l = elim (dec_lt (a + k) n) [
  | yes below ↦ omega (arith, mod-eq_of_lt below)
  | no over ↦ omega (
    arith,
    mod-eq-sub-mod {n = a + k} {m = n} (omega arith),
    mod-eq_of_lt {n = a + k - n} {m = n} (omega arith),
  )
]

-- Less than a whole round later the frame has another slot, and after one the same.
slot_ne : (n f k : ℕ) → 0 < k → k < n → (f + k) % n ≢ f % n
slot_ne n f k p h e =
    wrapped_ne n (f % n) k (mod-lt f {m = n} (omega arith)) p h (mod-add-mod f n k ∙ e)

begin_frame-Keeps :
    (fuel f k : ℕ) (q q' : Queue) (called : List ℕ)
    → f % q.frames_in_flight ≢ k
    → begin_frame fuel f q ≡ some (called, q')
    → (q'.slots k ≡ q.slots k) × (q'.frame ≡ f) × (q'.frames_in_flight ≡ q.frames_in_flight)
unfolding begin_frame
begin_frame-Keeps fuel f k q q' called ne e =
    flush-Keeps fuel (slot_of q f) k (record q { frame = f }) q' called refl ne e

-- A whole frame, with its pushes, keeps the slots of the other frames.
frame-Keeps :
    (fuel n f k : ℕ) (q r : Queue) (called : List ℕ) (js : List Job)
    → q.frames_in_flight ≡ n
    → f % n ≢ k
    → begin_frame fuel f q ≡ some (called, r)
    → ((push_all js r).slots k ≡ q.slots k) × ((push_all js r).frames_in_flight ≡ n)
frame-Keeps fuel n f k q r called js c ne e =
    let b = begin_frame-Keeps fuel f k q r called (rw c ne) e in
    let p = push_all-frame js r in
    (push_all-slots js r k (rw (b.1, b.2, c) ne) ∙ b.0, p.1 ∙ b.2 ∙ c)

next_frame : (f k : ℕ) → f + suc (suc k) ≡ suc (f + suc k)
next_frame f k = omega arith

-- In the frames before its slot comes round again, what was pushed in a frame stays where it is.
pub rounds-waits :
    (fuel n f k : ℕ) (js : List (List Job)) (q q' : Queue)
    → q.frames_in_flight ≡ n
    → k + length js < n
    → rounds fuel (f + suc k) js q ≡ some q'
    → (q'.slots (f % n) ≡ q.slots (f % n)) × (q'.frames_in_flight ≡ n)
unfolding rounds
rounds-waits fuel n f k [] q q' c l e = ground arith
rounds-waits fuel n f k (js ∷ rest) q q' c l e =
    elim (Option-cases (begin_frame fuel (f + suc k) q)) [
      | inl out ↦ absurd (ground arith)
      | inr (r, ran) ↦
          let one =
            frame-Keeps fuel n (f + suc k) (f % n) q r.1 r.0 js c
              (slot_ne n f (suc k) (omega arith) (omega arith)) ran in
          let again : rounds fuel (suc (f + suc k)) rest (push_all js r.1) ≡ some q' =
            ground arith in
          let later =
            rounds-waits fuel n f (suc k) rest (push_all js r.1) q' one.1 (omega arith)
              (rw (next_frame f k) again) in
          (later.0 ∙ one.0, later.1)
    ]

turn-called : (l : List Job) (i : ℕ) (q : Queue) → (turn l i q).0 ≡ map name (reverse l)
unfolding turn
turn-called l i q = call_all-names (reverse l) (record q { slots = update q.slots i [] })

flush-called :
    (fuel i : ℕ) (l : List Job) (q q' : Queue) (called : List ℕ)
    → q.slots i ≡ l
    → flush fuel i q ≡ some (called, q')
    → (more : List ℕ) × (called ≡ map name (reverse l) ++ more)
unfolding flush
flush-called zero i l q q' called s e = absurd (ground arith)
flush-called (suc fuel) i [] q q' called s e = (called, refl)
flush-called (suc fuel) i (j ∷ js) q q' called s e =
    elim (Option-cases (flush fuel i (turn (j ∷ js) i q).1)) [
      | inl none_left ↦ absurd (ground arith)
      | inr (r, ran) ↦ (r.0, ground (arith, turn-called (j ∷ js) i q))
    ]

-- The functions of the slot of a frame, in the order they were pushed, are the first ones called.
pub begin_frame-called :
    (fuel f : ℕ) (l : List Job) (q q' : Queue) (called : List ℕ)
    → q.slots (slot_of q f) ≡ l
    → begin_frame fuel f q ≡ some (called, q')
    → (more : List ℕ) × (called ≡ map name (reverse l) ++ more)
unfolding begin_frame
begin_frame-called fuel f l q q' called s e =
    flush-called fuel (slot_of q f) l (record q { frame = f }) q' called s e

-- What is pushed in frame f, whose slot was empty, still lies in that slot, newest first, after
-- the n - 1 frames that follow, whatever these push; if the beginFrame of frame f + n ends, it
-- calls it before anything else and in the order it was pushed.
pub pushed_then_called :
    (fuel n f : ℕ) (js : List Job) (between : List (List Job)) (q q' q'' : Queue) (called : List ℕ)
    → q.frames_in_flight ≡ n
    → q.frame ≡ f
    → q.slots (f % n) ≡ []
    → suc (length between) ≡ n
    → rounds fuel (f + 1) between (push_all js q) ≡ some q'
    → begin_frame fuel (f + n) q' ≡ some (called, q'')
    → (q'.slots (f % n) ≡ reverse js) × ((more : List ℕ) × (called ≡ map name js ++ more))
pushed_then_called fuel n f js between q q' q'' called c fr s len ran start =
    let p = push_all-frame js q in
    let w = rounds-waits fuel n f 0 between (push_all js q) q' (p.1 ∙ c) (omega arith) ran in
    let kept = w.0 ∙ push_all-slot js [] q (f % n) (rw (c, fr)) s ∙ append-nil (reverse js) in
    let first =
      begin_frame-called fuel (f + n) (reverse js) q' q'' called (rw (w.1, add-mod_right f n) kept)
        start in
    (kept, (first.0, first.1 ∙ ap (λ l. map name l ++ first.0) (reverse-reverse js)))
