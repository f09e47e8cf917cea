-- ===== src/Memory/Arena/Moves.antt =====
-- Steps of a thread of monotonic_resource.hpp that change no more than where it is and who has the
-- mutex keep the invariant.
use structured_chaos.Prelude.{
  ℕ, ◌+◌, ◌≤◌, ◌<◌, ◌≡◌, ◌≢◌, ◌⊎◌, refl, ◌∙◌, inl, inr, Option, some, arith, write, all-write,
}
use structured_chaos.Memory.Arena.Threads.{
  Local, idle, asks, has_current, has_both, locked, has_current_locked, full_block, got_block,
  no_range, has_end, State, go_to,
}
use structured_chaos.Memory.Arena.Invariant.{read_of, Seen, EndOk, Reserved, StageOk, Inv}

-- What a thread needs of its stage goes over to another state.
pub StageOk-map :
    (s r : State) (t : ℕ) (l : Local)
    → r.owner ≡ s.owner
    → r.arena.block_size ≡ s.arena.block_size
    → ((ptr : ℕ) → Reserved s ptr → Reserved r ptr)
    → (s.arena.current ≡ 0 → (r.arena.current ≡ 0) × (r.arena.end ≡ s.arena.end))
    → StageOk s t l
    → StageOk r t l
StageOk-map s r t idle o b f z h = tt
StageOk-map s r t (asks _ _) o b f z h = tt
StageOk-map s r t (has_current _ _ _) o b f z h = tt
StageOk-map s r t (has_both _ _ _ _) o b f z h = tt
StageOk-map s r t (locked _ _) o b f z h = (o ∙ h.0, omega (arith, b, h.1))
StageOk-map s r t (has_current_locked _ _ _) o b f z h = (o ∙ h.0, omega (arith, b, h.1))
StageOk-map s r t (full_block _ _) o b f z h = (o ∙ h.0, omega (arith, b, h.1))
StageOk-map s r t (got_block _ _ ptr) o b f z h = (o ∙ h.0, f ptr h.1)
StageOk-map s r t (no_range _ _ ptr) o b f z h = (o ∙ h.0, f ptr h.1, (z h.2).0)
StageOk-map s r t (has_end _ _ ptr) o b f z h =
    (o ∙ h.0, f ptr h.1, (z h.2).0, omega (arith, (z h.2).1, h.3, b))

-- A thread without the mutex is in no stage that needs anything.
pub StageOk-unheld :
    (s r : State) (t : ℕ) (l : Local) → s.owner ≢ some t → StageOk s t l → StageOk r t l
StageOk-unheld s r t idle n h = tt
StageOk-unheld s r t (asks _ _) n h = tt
StageOk-unheld s r t (has_current _ _ _) n h = tt
StageOk-unheld s r t (has_both _ _ _ _) n h = tt
StageOk-unheld s r t (locked _ _) n h = absurd (n h.0)
StageOk-unheld s r t (has_current_locked _ _ _) n h = absurd (n h.0)
StageOk-unheld s r t (full_block _ _) n h = absurd (n h.0)
StageOk-unheld s r t (got_block _ _ ptr) n h = absurd (n h.0)
StageOk-unheld s r t (no_range _ _ ptr) n h = absurd (n h.0)
StageOk-unheld s r t (has_end _ _ ptr) n h = absurd (n h.0)

-- Where the value that a thread goes on with comes from.
abbrev pub ReadFrom : State → ℕ → Local → Type 0
ReadFrom s t l =
    (read_of l ≡ 0) ⊎ (read_of l ≡ s.arena.current) ⊎ (read_of l ≡ read_of (s.locals t))

pub reads-ReadFrom :
    (s : State) (t : ℕ) (l : Local) (ptr : ℕ)
    → ReadFrom s t l
    → Reserved s ptr
    → (j : ℕ) → read_of (write s.locals t l j) ≢ 0
    → (read_of (write s.locals t l j) < ptr)
      ⊎ (ptr + s.arena.block_size ≤ read_of (write s.locals t l j))
reads-ReadFrom s t l ptr from v =
    all-write (λ _ m. read_of m ≢ 0 → (read_of m < ptr) ⊎ (ptr + s.arena.block_size ≤ read_of m))
      s.locals t l
      (λ n. elim from [
        | inl z ↦ absurd (n z)
        | inr q ↦ elim q [
          | inl c ↦ let w = v.window_apart (λ z. n (c ∙ z)) in omega (arith, c, w)
          | inr o ↦ rw (o) (v.reads_apart t (λ z. n (o ∙ z)))
        ]
      ])
      (λ j ne. v.reads_apart j)

pub Reserved-moves :
    (s : State) (t : ℕ) (l : Local) (o : Option ℕ) (ptr : ℕ)
    → ReadFrom s t l
    → Reserved s ptr
    → Reserved (go_to t l (record s { owner = o })) ptr
Reserved-moves s t l o ptr from v = record {
  there = v.there;
  some_bytes = v.some_bytes;
  holds = v.holds;
  given_apart = v.given_apart;
  window_apart = v.window_apart;
  reads_apart = reads-ReadFrom s t l ptr from v;
}

-- A step of one thread that leaves the arena alone.
pub moves-Inv :
    (s : State) (t : ℕ) (l : Local) (o : Option ℕ)
    → Inv s
    → Seen s.arena (read_of l)
    → EndOk s.arena l
    → StageOk (go_to t l (record s { owner = o })) t l
    → ((j : ℕ) → t ≢ j → StageOk (go_to t l (record s { owner = o })) j (s.locals j))
    → Inv (go_to t l (record s { owner = o }))
moves-Inv s t l o v seen ends stage others = record {
  window = v.window;
  inside = v.inside;
  outside = v.outside;
  separate = v.separate;
  seen = all-write (λ _ m. Seen s.arena (read_of m)) s.locals t l seen (λ j _. v.seen j);
  ends = all-write (λ _ m. EndOk s.arena m) s.locals t l ends (λ j _. v.ends j);
  stages =
      all-write (λ j m. StageOk (go_to t l (record s { owner = o })) j m) s.locals t l stage others;
}

-- The mutex stays with whom it is.
pub stays-Inv :
    (s : State) (t : ℕ) (l : Local)
    → Inv s
    → ReadFrom s t l
    → Seen s.arena (read_of l)
    → EndOk s.arena l
    → StageOk s t l
    → Inv (go_to t l s)
stays-Inv s t l v from seen ends stage =
    let over : (j : ℕ) (m : Local) → StageOk s j m → StageOk (go_to t l s) j m = λ j m.
      StageOk-map s (go_to t l s) j m refl refl (λ ptr. Reserved-moves s t l s.owner ptr from)
        (λ z. (z, refl)) in
    moves-Inv s t l s.owner v seen ends (over t l stage) (λ j ne. over j (s.locals j) (v.stages j))

-- The mutex goes from one thread to none, or from none to one.
pub owner-Inv :
    (s : State) (t : ℕ) (l : Local) (o : Option ℕ)
    → Inv s
    → ((j : ℕ) → t ≢ j → s.owner ≢ some j)
    → Seen s.arena (read_of l)
    → EndOk s.arena l
    → StageOk (go_to t l (record s { owner = o })) t l
    → Inv (go_to t l (record s { owner = o }))
owner-Inv s t l o v free seen ends stage = moves-Inv s t l o v seen ends stage (λ j ne.
    StageOk-unheld s (go_to t l (record s { owner = o })) j (s.locals j) (free j ne) (v.stages j))
