-- ===== src/Memory/Arena/Safety.antt =====
-- Any threads that allocate from a `MonotonicResource` of monotonic_resource.hpp, in any order of their
-- accesses, get memory of their own.
use structured_chaos.Prelude.{
  ℕ, ◌+◌, ◌-◌, ◌*◌, ◌%◌, ◌^◌, ◌≤◌, ◌<◌, ◌≡◌, ◌≢◌, refl, sym, ap, ◌∙◌, subst, inl, inr, List, [],
  ◌∷◌, none, some, ◌==◌, ◌||◌, true, All, arith, eq_of_some, Bool-cases, if◌then◌else◌, word,
}
use structured_chaos.Memory.Arena.{
  Block, Arena, max_align, default_block_size, fits_new_block, install_range, kept_blocks,
  start_over, reset, release, init, init_buffer,
}
use structured_chaos.Memory.Arena.Threads.{
  Local, idle, asks, has_current, has_both, locked, has_current_locked, full_block, State,
  all_blocks, Step, calls, reads_current, reads_end, takes, fails, takes_custom, locks,
  reads_current_locked, finds_room, finds_none, gets_block, drops_range, stores_end, stores_start,
  upstream_fails, custom_fails, resets, releases,
}
use structured_chaos.Memory.Arena.Regions.{Inside, Inside-narrow, Separate}
use structured_chaos.Memory.Arena.Invariant.{read_of, Seen, EndOk, StageOk, Inv}
use structured_chaos.Memory.Arena.Moves.{stays-Inv, owner-Inv}
use structured_chaos.Memory.Arena.Ranges.{takes-Inv}
use structured_chaos.Memory.Arena.Blocks.{custom-Inv, new_block-Inv}
use structured_chaos.Memory.Arena.Installing.{drops_range-Inv, stores_end-Inv, stores_start-Inv}

WindowOk : Arena → Type 0
WindowOk a = a.current ≢ 0 → (a.current ≤ a.end) × Inside a.current (a.end + 1) (all_blocks a)

install_range-WindowOk :
    (ptr size : ℕ) (a : Arena)
    → (ptr ≢ 0 → Inside ptr (ptr + size) (all_blocks a))
    → WindowOk (install_range ptr size a)
unfolding WindowOk
install_range-WindowOk ptr size a i = elim (Bool-cases (ptr == 0 || size == 0)) [
  | inl nothing ↦ rw (nothing) (λ nz. absurd (nz refl))
  | inr there ↦
      let nz : (ptr ≢ 0) × (0 < size) = ground arith in
      let last : ptr + size ≡ ptr + size - 1 + 1 = omega (arith, nz.1) in
      rw (there)
        (λ _. (omega (arith, nz.1), subst (λ hi. Inside ptr hi (all_blocks a)) last (i nz.0)))
]

initial-Inside :
    (a : Arena)
    → a.initial.ptr ≢ 0
    → Inside a.initial.ptr (a.initial.ptr + a.initial.size) (all_blocks a)
initial-Inside a nz = elim (Bool-cases (a.initial.ptr == 0)) [
  | inl null ↦ absurd (ground arith)
  | inr there ↦ rw (there) (inl (omega arith, omega arith))
]

release-WindowOk : (a : Arena) → WindowOk (release a)
unfolding release start_over
release-WindowOk a =
    let empty = record a { blocks = [] } in
    install_range-WindowOk a.initial.ptr a.initial.size empty (initial-Inside empty)

kept-WindowOk :
    (bs : List Block) (a : Arena)
    → WindowOk
        (start_over (kept_blocks a.initial bs) (record a { blocks = kept_blocks a.initial bs }))
unfolding start_over kept_blocks
kept-WindowOk [] a =
    let empty = record a { blocks = [] } in
    install_range-WindowOk a.initial.ptr a.initial.size empty (initial-Inside empty)
kept-WindowOk (b ∷ bs) a = elim (Bool-cases (a.initial.ptr == 0)) [
  | inl null ↦
      rw (null, start_over, kept_blocks, null)
        (install_range-WindowOk b.ptr b.size (record a { blocks = b ∷ [] })
          (λ _. rw (null) (inl (omega arith, omega arith))))
  | inr there ↦
      let empty = record a { blocks = [] } in
      rw (there, start_over, kept_blocks)
        (install_range-WindowOk a.initial.ptr a.initial.size empty (initial-Inside empty))
]

reset-WindowOk : (a : Arena) → WindowOk (reset a)
unfolding reset
reset-WindowOk a = kept-WindowOk a.blocks a

-- No thread is in a call, and nothing was given.
quiet-Inv :
    (s : State) (a : Arena)
    → ((t : ℕ) → s.locals t ≡ idle)
    → WindowOk a
    → Inv (record s { arena = a; given = [] })
unfolding WindowOk
quiet-Inv s a q w = record {
  window = w;
  inside = tt;
  outside = tt;
  separate = tt;
  seen = λ t nz. absurd (nz (ap read_of (q t)));
  ends = λ t. subst (EndOk a) (sym (q t)) tt;
  stages = λ t. subst (StageOk (record s { arena = a; given = [] }) t) (sym (q t)) tt;
}

-- A resource with no calls yet.
abbrev pub started : Arena → State
started a = record { arena = a; owner = none; locals = λ _. idle; given = [] }

pub data Reach : State → Type 0 where
  from_buffer : (ptr size : ℕ) → Reach (started (init_buffer ptr size))
  from_upstream : (size ptr : ℕ) → Reach (started (init size ptr))
  later : {s r : State} → Reach s → Step s r → Reach r

stage : (s : State) (t : ℕ) {l : Local} → Inv s → s.locals t ≡ l → StageOk s t l
stage s t v h = subst (StageOk s t) h (v.stages t)

others_free : (s : State) (t : ℕ) → s.owner ≡ some t → (j : ℕ) → t ≢ j → s.owner ≢ some j
others_free s t o j ne q = ne (eq_of_some (sym o ∙ q))

none_not_some : {t : ℕ} → none ≢ some t
none_not_some h = ground arith

-- A thread that read what `m_current` is now.
current-Seen : (s : State) → Inv s → Seen s.arena s.arena.current
current-Seen s v nz =
    let w = v.window nz in
    (
      Inside-narrow s.arena.current (s.arena.end + 1) s.arena.current (s.arena.current + 1)
          (all_blocks s.arena) (omega arith) (omega (arith, w.0)) w.1,
      inr (inl refl),
    )

fits_new_block-size : (b k : ℕ) (a : Arena) → fits_new_block b k a ≡ true → 0 < a.block_size
unfolding fits_new_block
fits_new_block-size b k a h = ground arith

Step-Inv : {s r : State} → Inv s → Step s r → Inv r
Step-Inv {s} v (calls t b k h) = stays-Inv s t (asks b k) v (inl refl) (λ n. absurd (n refl)) tt tt
Step-Inv {s} v (reads_current t {b} {k} h) =
    stays-Inv s t (has_current b k s.arena.current) v (inr (inl refl)) (current-Seen s v) tt tt
Step-Inv {s} v (reads_end t {b} {k} {c} h) =
    stays-Inv s t (has_both b k c s.arena.end) v (inr (inr (ap read_of (sym h))))
      (subst (λ m. Seen s.arena (read_of m)) h (v.seen t)) (λ _ _. refl) tt
Step-Inv {s} v (takes t {b} {k} {c} {e} {p} h f same) = takes-Inv s t b k c e p v h f same
Step-Inv {s} v (fails t {b} {k} h f) =
    stays-Inv s t (asks b k) v (inl refl) (λ n. absurd (n refl)) tt tt
Step-Inv {s} v (takes_custom t ptr {b} {k} h f n o fresh) = custom-Inv s v ptr b fresh t (2 ^ k)
Step-Inv {s} v (locks t {b} {k} h f n o) =
    owner-Inv s t (locked b k) (some t) v (λ j _ q. none_not_some (sym o ∙ q))
      (λ n. absurd (n refl)) tt (refl, fits_new_block-size b k s.arena n)
Step-Inv {s} v (reads_current_locked t {b} {k} h) =
    stays-Inv s t (has_current_locked b k s.arena.current) v (inl refl) (λ n. absurd (n refl)) tt
      (stage s t v h)
Step-Inv {s} v (finds_room t {b} {k} h f) =
    owner-Inv s t (asks b k) none v (others_free s t (stage s t v h).0) (λ n. absurd (n refl)) tt tt
Step-Inv {s} v (finds_none t {b} {k} h f) =
    stays-Inv s t (full_block b k) v (inl refl) (λ n. absurd (n refl)) tt (stage s t v h)
Step-Inv {s} v (gets_block t ptr {b} {k} h fresh) =
    let g = stage s t v h in
    new_block-Inv s v ptr s.arena.block_size fresh t b k (2 ^ max_align) refl g.1 g.0
Step-Inv {s} v (drops_range t {b} {k} {ptr} h) =
    let g = stage s t v h in drops_range-Inv s t v g.0 ptr g.1 b k
Step-Inv {s} v (stores_end t {b} {k} {ptr} h) =
    let g = stage s t v h in stores_end-Inv s t v g.0 ptr g.1 b k g.2
Step-Inv {s} v (stores_start t {b} {k} {ptr} h) =
    let g = stage s t v h in stores_start-Inv s t v g.0 ptr g.1 b k g.3
Step-Inv {s} v (upstream_fails t {b} {k} h) =
    owner-Inv s t idle none v (others_free s t (stage s t v h).0) (λ n. absurd (n refl)) tt tt
Step-Inv {s} v (custom_fails t {b} {k} h f n) =
    stays-Inv s t idle v (inl refl) (λ n. absurd (n refl)) tt tt
Step-Inv {s} v (resets q) = quiet-Inv s (reset s.arena) q (reset-WindowOk s.arena)
Step-Inv {s} v (releases q) = quiet-Inv s (release s.arena) q (release-WindowOk s.arena)

pub Reach-Inv : {s : State} → Reach s → Inv s
unfolding init init_buffer WindowOk
Reach-Inv (from_buffer ptr size) =
    let before : Arena = record {
      current = 0;
      end = 0;
      blocks = [];
      initial = record { ptr = ptr; size = size; alignment = 2 ^ max_align };
      block_size = if size == 0 then default_block_size else size * 2 % word;
    } in
    quiet-Inv (started (init_buffer ptr size)) (init_buffer ptr size) (λ _. refl)
      (install_range-WindowOk ptr size before (initial-Inside before))
Reach-Inv (from_upstream size ptr) =
    let block_size = if size == 0 then default_block_size else size in
    quiet-Inv (started (init size ptr)) (init size ptr) (λ _. refl)
      (install_range-WindowOk ptr block_size
        (record {
          current = 0;
          end = 0;
          blocks = record { ptr = ptr; size = block_size; alignment = 2 ^ max_align } ∷ [];
          initial = record { ptr = 0; size = 0; alignment = 0 };
          block_size = block_size;
        })
        (λ _. inl (omega arith, omega arith)))
Reach-Inv (later r step) = Step-Inv (Reach-Inv r) step

-- Whatever order the reads, compare-exchanges and stores of any threads in allocate come in, no
-- two ranges that a MonotonicResource gave since its last reset overlap, if the upstream gives no
-- block that overlaps one it still has out.
pub given-Separate : {s : State} → Reach s → Separate s.given
given-Separate r = (Reach-Inv r).separate

-- Each range that was given since the last reset lies in the buffer of the caller or in one block
-- that the resource has from the upstream, whatever order the steps of any threads in allocate
-- come in, if the upstream gives no block that overlaps one it still has out.
pub given-Inside :
    {s : State}
    → Reach s
    → All (λ g. Inside g.address (g.address + g.bytes) (all_blocks s.arena)) s.given
given-Inside r = (Reach-Inv r).inside

-- If m_current still is the value, not nullptr, that a thread read before it read m_end, then
-- m_end is still what it read, so its compare-exchange cannot succeed with the end of another
-- block; whatever order the steps of any threads in allocate come in, if the upstream gives no
-- block that overlaps one it still has out.
pub read_end :
    {s : State} (t : ℕ) {b k c e : ℕ}
    → Reach s
    → s.locals t ≡ has_both b k c e
    → c ≢ 0
    → s.arena.current ≡ c
    → s.arena.end ≡ e
read_end {s} t r h nz same = subst (λ m. EndOk s.arena m) h ((Reach-Inv r).ends t) nz same
