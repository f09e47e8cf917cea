-- ===== src/Memory/Arena/Blocks.antt =====
-- The upstream gives a block of monotonic_resource.hpp, and the thread with the mutex makes it the range.
use structured_chaos.Prelude.{
  ℕ, ◌+◌, ◌≤◌, ◌<◌, ◌≡◌, ◌≢◌, ◌⊎◌, refl, sym, ◌∙◌, subst, some, All, All-map, arith, all-write,
  eq_of_some,
}
use structured_chaos.Memory.Arena.{Block}
use structured_chaos.Memory.Arena.Threads.{
  idle, got_block, State, all_blocks, go_to, Fresh, add_block, give_out,
}
use structured_chaos.Memory.Arena.Regions.{Inside, Inside-last, Inside-Apart, all_blocks-append}
use structured_chaos.Memory.Arena.Invariant.{read_of, Seen, EndOk, Reserved, StageOk, Inv}
use structured_chaos.Memory.Arena.Moves.{StageOk-map, StageOk-unheld}
use structured_chaos.Memory.Arena.Ranges.{Inside-add, Seen-add, EndOk-map}

Inside-new :
    (ptr size alignment : ℕ) (s : State)
    → Inside ptr (ptr + size) (all_blocks (add_block ptr size alignment s).arena)
Inside-new ptr size alignment s =
    let b : Block = record { ptr = ptr; size = size; alignment = alignment } in
    rw (all_blocks-append s.arena b) (Inside-last (all_blocks s.arena) b)

-- A block that the upstream gives is apart from what was given, from the range and from what was read.
module _ (s : State) (v : Inv s) (ptr size : ℕ) (fresh : Fresh ptr size s.arena) where
  given_apart : All (λ g. (g.address + g.bytes ≤ ptr) ⊎ (ptr + size ≤ g.address)) s.given
  given_apart =
      All-map
        (λ g i.
          Inside-Apart ptr size g.address (g.address + g.bytes) (all_blocks s.arena) fresh.apart i)
        s.given v.inside

  window_apart :
      s.arena.current ≢ 0
      → ((s.arena.current ≤ s.arena.end) × (s.arena.end < ptr)) ⊎ (ptr + size ≤ s.arena.current)
  window_apart nz =
      let win = v.window nz in
      let apart =
        Inside-Apart ptr size s.arena.current (s.arena.end + 1) (all_blocks s.arena) fresh.apart
          win.1 in
      omega (arith, win.0, apart)

  reads_apart :
      (t : ℕ)
      → read_of (s.locals t) ≢ 0
      → (read_of (s.locals t) < ptr) ⊎ (ptr + size ≤ read_of (s.locals t))
  reads_apart t nz =
      let apart =
        Inside-Apart ptr size (read_of (s.locals t)) (read_of (s.locals t) + 1) (all_blocks s.arena)
          fresh.apart (v.seen t nz).0 in
      omega (arith, apart)

  custom-Reserved :
      (t alignment other : ℕ)
      → Reserved s other
      → Reserved (go_to t idle (give_out ptr size (add_block ptr size alignment s))) other
  custom-Reserved t alignment other w = record {
    there = w.there;
    some_bytes = w.some_bytes;
    holds = Inside-add other (other + s.arena.block_size) ptr size alignment s w.holds;
    given_apart = (
      let apart =
            Inside-Apart ptr size other (other + s.arena.block_size) (all_blocks s.arena)
              fresh.apart w.holds in
          omega (arith, apart),
      w.given_apart,
    );
    window_apart = w.window_apart;
    reads_apart =
        all-write
          (λ _ m. read_of m ≢ 0 → (read_of m < other) ⊎ (other + s.arena.block_size ≤ read_of m))
          s.locals t idle (λ n. absurd (n refl)) (λ j _. w.reads_apart j);
  }

  -- allocateCustomBlock: the whole block is given.
  pub custom-Inv :
      (t alignment : ℕ) → Inv (go_to t idle (give_out ptr size (add_block ptr size alignment s)))
  custom-Inv t alignment =
      let r = go_to t idle (give_out ptr size (add_block ptr size alignment s)) in
      record {
        window = λ nz. (
          (v.window nz).0,
          Inside-add s.arena.current (s.arena.end + 1) ptr size alignment s (v.window nz).1,
        );
        inside = (
          Inside-new ptr size alignment s,
          All-map (λ g i. Inside-add g.address (g.address + g.bytes) ptr size alignment s i) s.given
              v.inside,
        );
        outside = (λ nz. let apart = window_apart nz in omega (arith, apart), v.outside);
        separate = (All-map (λ g a. omega (arith, a)) s.given given_apart, v.separate);
        seen =
            all-write (λ _ m. Seen r.arena (read_of m)) s.locals t idle (λ n. absurd (n refl))
              (λ j _. Seen-add ptr size alignment (read_of (s.locals j)) s (v.seen j));
        ends =
            all-write (λ _ m. EndOk r.arena m) s.locals t idle tt
              (λ j _.
                EndOk-map s.arena r.arena (s.locals j) (λ c _ _ same. (same, refl)) (v.ends j));
        stages =
            all-write (λ j m. StageOk r j m) s.locals t idle tt
              (λ j _.
                StageOk-map s r j (s.locals j) refl refl
                  (λ other w. custom-Reserved t alignment other w) (λ z. (z, refl)) (v.stages j));
      }

  -- allocateNewBlock got its block, and has not set it up yet.
  pub new_block-Inv :
      (t b k alignment : ℕ)
      → size ≡ s.arena.block_size
      → 0 < size
      → s.owner ≡ some t
      → Inv (go_to t (got_block b k ptr) (add_block ptr size alignment s))
  new_block-Inv t b k alignment whole some_bytes owner =
      let r = go_to t (got_block b k ptr) (add_block ptr size alignment s) in
      let reserved : Reserved r ptr = record {
        there = fresh.there;
        some_bytes = omega (arith, whole, some_bytes);
        holds =
            subst (λ n. Inside ptr (ptr + n) (all_blocks r.arena)) whole
              (Inside-new ptr size alignment s);
        given_apart = All-map (λ g a. omega (arith, a, whole)) s.given given_apart;
        window_apart = λ nz. let apart = window_apart nz in omega (arith, apart, whole);
        reads_apart =
            all-write
              (λ _ m. read_of m ≢ 0 → (read_of m < ptr) ⊎ (ptr + s.arena.block_size ≤ read_of m))
              s.locals t (got_block b k ptr) (λ n. absurd (n refl))
              (λ j _ nz. let apart = reads_apart j nz in omega (arith, apart, whole));
      } in
      record {
        window = λ nz. (
          (v.window nz).0,
          Inside-add s.arena.current (s.arena.end + 1) ptr size alignment s (v.window nz).1,
        );
        inside =
            All-map (λ g i. Inside-add g.address (g.address + g.bytes) ptr size alignment s i)
              s.given v.inside;
        outside = v.outside;
        separate = v.separate;
        seen =
            all-write (λ _ m. Seen r.arena (read_of m)) s.locals t (got_block b k ptr)
              (λ n. absurd (n refl))
              (λ j _. Seen-add ptr size alignment (read_of (s.locals j)) s (v.seen j));
        ends =
            all-write (λ _ m. EndOk r.arena m) s.locals t (got_block b k ptr) tt
              (λ j _.
                EndOk-map s.arena r.arena (s.locals j) (λ c _ _ same. (same, refl)) (v.ends j));
        stages =
            all-write (λ j m. StageOk r j m) s.locals t (got_block b k ptr) (owner, reserved)
              (λ j ne.
                StageOk-unheld s r j (s.locals j) (λ q. ne (eq_of_some (sym owner ∙ q)))
                  (v.stages j));
      }
