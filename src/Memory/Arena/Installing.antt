-- ===== src/Memory/Arena/Installing.antt =====
-- `installRange` of monotonic_resource.hpp by the thread with the mutex, one store after the other.
use structured_chaos.Prelude.{
  ℕ, ◌+◌, ◌-◌, ◌≤◌, ◌<◌, ◌≡◌, ◌≢◌, ◌⊎◌, refl, sym, ◌∙◌, subst, inl, none, some, All-map, arith,
  write, all-write, eq_of_some,
}
use structured_chaos.Memory.Arena.Threads.{
  Local, asks, no_range, has_end, State, all_blocks, go_to, set_current, set_end,
}
use structured_chaos.Memory.Arena.Regions.{Inside}
use structured_chaos.Memory.Arena.Invariant.{read_of, Seen, EndOk, Reserved, StageOk, Inv}
use structured_chaos.Memory.Arena.Moves.{StageOk-unheld}
use structured_chaos.Memory.Arena.Ranges.{EndOk-map}

module _ (s : State) (t : ℕ) (v : Inv s) (owner : s.owner ≡ some t) (ptr : ℕ)
    (w : Reserved s ptr) where
  reads_after :
      (l : Local)
      → read_of l ≡ 0
      → (j : ℕ) → read_of (write s.locals t l j) ≢ 0
      → (read_of (write s.locals t l j) < ptr)
        ⊎ (ptr + s.arena.block_size ≤ read_of (write s.locals t l j))
  reads_after l silent =
      all-write (λ _ m. read_of m ≢ 0 → (read_of m < ptr) ⊎ (ptr + s.arena.block_size ≤ read_of m))
        s.locals t l (λ n. absurd (n silent)) (λ j _. w.reads_apart j)

  -- While there is no range, its end may be anything.
  no_range-Inv :
      (l : Local) (end : ℕ)
      → read_of l ≡ 0
      → EndOk (record s.arena { current = 0; end = end }) l
      → StageOk (go_to t l (set_current 0 (set_end end s))) t l
      → Inv (go_to t l (set_current 0 (set_end end s)))
  no_range-Inv l end silent ends stage =
      let r = go_to t l (set_current 0 (set_end end s)) in
      record {
        window = λ nz. absurd (nz refl);
        inside = v.inside;
        outside = All-map (λ g _ nz. absurd (nz refl)) s.given v.inside;
        separate = v.separate;
        seen =
            all-write (λ _ m. Seen r.arena (read_of m)) s.locals t l (λ n. absurd (n silent))
              (λ j _ nz. ((v.seen j nz).0, inl refl));
        ends =
            all-write (λ _ m. EndOk r.arena m) s.locals t l ends
              (λ j _.
                EndOk-map s.arena r.arena (s.locals j) (λ c _ nz same. absurd (nz (sym same)))
                  (v.ends j));
        stages =
            all-write (λ j m. StageOk r j m) s.locals t l stage
              (λ j ne.
                StageOk-unheld s r j (s.locals j) (λ q. ne (eq_of_some (sym owner ∙ q)))
                  (v.stages j));
      }

  no_range-Reserved :
      (l : Local) (end : ℕ)
      → read_of l ≡ 0
      → Reserved (go_to t l (set_current 0 (set_end end s))) ptr
  no_range-Reserved l end silent = record {
    there = w.there;
    some_bytes = w.some_bytes;
    holds = w.holds;
    given_apart = w.given_apart;
    window_apart = λ nz. absurd (nz refl);
    reads_apart = reads_after l silent;
  }

  pub drops_range-Inv : (b k : ℕ) → Inv (go_to t (no_range b k ptr) (set_current 0 s))
  drops_range-Inv b k =
      no_range-Inv (no_range b k ptr) s.arena.end refl tt
        (owner, no_range-Reserved (no_range b k ptr) s.arena.end refl, refl)

  pub stores_end-Inv :
      (b k : ℕ)
      → s.arena.current ≡ 0
      → Inv (go_to t (has_end b k ptr) (set_end (ptr + s.arena.block_size - 1) s))
  stores_end-Inv b k z =
      subst
        (λ c.
          Inv
            (go_to t (has_end b k ptr) (set_current c (set_end (ptr + s.arena.block_size - 1) s))))
        (sym z)
        (no_range-Inv (has_end b k ptr) (ptr + s.arena.block_size - 1) refl tt (
          owner,
          no_range-Reserved (has_end b k ptr) (ptr + s.arena.block_size - 1) refl,
          refl,
          refl,
        ))

  pub stores_start-Inv :
      (b k : ℕ)
      → s.arena.end ≡ ptr + s.arena.block_size - 1
      → Inv (go_to t (asks b k) (set_current ptr (record s { owner = none })))
  stores_start-Inv b k e =
      let r = go_to t (asks b k) (set_current ptr (record s { owner = none })) in
      let some_bytes = w.some_bytes in
      let last : ptr + s.arena.block_size ≡ s.arena.end + 1 = omega (arith, e, some_bytes) in
      record {
        window = λ _. (
          omega (arith, last, some_bytes),
          subst (λ hi. Inside ptr hi (all_blocks s.arena)) last w.holds,
        );
        inside = v.inside;
        outside = All-map (λ g a _. omega (arith, a, last)) s.given w.given_apart;
        separate = v.separate;
        seen =
            all-write (λ _ m. Seen r.arena (read_of m)) s.locals t (asks b k) (λ n. absurd (n refl))
              (λ j _ nz. let a = w.reads_apart j nz in ((v.seen j nz).0, omega (arith, a, last)));
        ends =
            all-write (λ _ m. EndOk r.arena m) s.locals t (asks b k) tt
              (λ j _.
                EndOk-map s.arena r.arena (s.locals j)
                  (λ c here nz same.
                    let a = w.reads_apart j (λ z. nz (here ∙ z)) in
                    absurd (omega (arith, a, here, same, some_bytes)))
                  (v.ends j));
        stages =
            all-write (λ j m. StageOk r j m) s.locals t (asks b k) tt
              (λ j ne.
                StageOk-unheld s r j (s.locals j) (λ q. ne (eq_of_some (sym owner ∙ q)))
                  (v.stages j));
      }
