-- ===== src/Memory/Arena/Ranges.antt =====
-- Steps of monotonic_resource.hpp that hand memory out, add a block, or take the range away and set up
-- the next one.
use structured_chaos.Prelude.{
  ℕ, ◌+◌, ◌≤◌, ◌<◌, ◌≡◌, ◌≢◌, ◌⊎◌, refl, sym, ◌∙◌, subst, inl, [], ◌∷◌, some, All-map, arith,
  all-write,
}
use structured_chaos.Memory.Arena.{Block, Arena, fit}
use structured_chaos.Memory.Arena.Fit.{fit_lem}
use structured_chaos.Memory.Arena.Threads.{
  Local, idle, asks, has_current, has_both, locked, has_current_locked, full_block, got_block,
  no_range, has_end, State, all_blocks, go_to, add_block, set_current, give_out,
}
use structured_chaos.Memory.Arena.Regions.{
  Inside, Inside-append_left, Inside-narrow, all_blocks-append,
}
use structured_chaos.Memory.Arena.Invariant.{read_of, Seen, EndOk, Reserved, StageOk, Inv}
use structured_chaos.Memory.Arena.Moves.{StageOk-map}

-- The range moves up: what was read before is not taken again.
Seen-up :
    (a : Arena) (n c : ℕ)
    → a.current ≤ n
    → a.current ≢ 0
    → Seen a c
    → Seen (record a { current = n }) c
Seen-up a n c le nz seen z = let o = (seen z).1 in ((seen z).0, omega (arith, o, nz))

EndOk-up :
    (a : Arena) (n : ℕ) (l : Local)
    → a.current ≤ n
    → n ≤ a.end
    → a.current ≢ 0
    → Seen a (read_of l)
    → EndOk a l
    → EndOk (record a { current = n }) l
EndOk-up a n idle le in_range nz seen e = tt
EndOk-up a n (asks _ _) le in_range nz seen e = tt
EndOk-up a n (has_current _ _ _) le in_range nz seen e = tt
EndOk-up a n (has_both b k c x) le in_range nz seen e =
    λ z same. let o = (seen z).1 in e z (omega (arith, o, same, in_range, le, nz))
EndOk-up a n (locked _ _) le in_range nz seen e = tt
EndOk-up a n (has_current_locked _ _ _) le in_range nz seen e = tt
EndOk-up a n (full_block _ _) le in_range nz seen e = tt
EndOk-up a n (got_block _ _ _) le in_range nz seen e = tt
EndOk-up a n (no_range _ _ _) le in_range nz seen e = tt
EndOk-up a n (has_end _ _ _) le in_range nz seen e = tt

takes-Reserved :
    (s : State) (t b p ptr : ℕ)
    → s.arena.current ≢ 0
    → s.arena.current ≤ p
    → p + b ≤ s.arena.end
    → Reserved s ptr
    → Reserved (go_to t idle (give_out p b (set_current (p + b) s))) ptr
takes-Reserved s t b p ptr nz up fits w =
    let apart = w.window_apart nz in
    record {
      there = w.there;
      some_bytes = w.some_bytes;
      holds = w.holds;
      given_apart = (omega (arith, apart, up, fits), w.given_apart);
      window_apart = λ _. omega (arith, apart, up, fits);
      reads_apart =
          all-write
            (λ _ m. read_of m ≢ 0 → (read_of m < ptr) ⊎ (ptr + s.arena.block_size ≤ read_of m))
            s.locals t idle (λ n. absurd (n refl)) (λ j _. w.reads_apart j);
    }

-- The compare-exchange succeeds: the thread has the memory from p on.
pub takes-Inv :
    (s : State) (t b k c e p : ℕ)
    → Inv s
    → s.locals t ≡ has_both b k c e
    → fit c e b k ≡ some p
    → s.arena.current ≡ c
    → Inv (go_to t idle (give_out p b (set_current (p + b) s)))
takes-Inv s t b k c e p v l f same =
    let r = go_to t idle (give_out p b (set_current (p + b) s)) in
    let found = fit_lem c e b k f in
    let nz : s.arena.current ≢ 0 = λ z. found.0 (sym same ∙ z) in
    let win = v.window nz in
    let read : EndOk s.arena (has_both b k c e) = subst (λ m. EndOk s.arena m) l (v.ends t) in
    let end_same : s.arena.end ≡ e = read found.0 same in
    let up : s.arena.current ≤ p = omega (arith, same, found.1) in
    let fits : p + b ≤ s.arena.end = omega (arith, end_same, found.2) in
    record {
      window = λ _. (
        fits,
        Inside-narrow s.arena.current (s.arena.end + 1) (p + b) (s.arena.end + 1)
            (all_blocks s.arena) (omega arith) (omega arith) win.1,
      );
      inside = (
        Inside-narrow s.arena.current (s.arena.end + 1) p (p + b) (all_blocks s.arena) up
            (omega arith) win.1,
        v.inside,
      );
      outside = (
        λ _. inl (omega arith),
        All-map (λ g o _. let old = o nz in omega (arith, old, up)) s.given v.outside,
      );
      separate = (
        All-map (λ g o. let old = o nz in omega (arith, old, up, fits)) s.given v.outside,
        v.separate,
      );
      seen =
          all-write (λ _ m. Seen r.arena (read_of m)) s.locals t idle (λ n. absurd (n refl))
            (λ j _.
              Seen-up s.arena (p + b) (read_of (s.locals j)) (omega (arith, up)) nz (v.seen j));
      ends =
          all-write (λ _ m. EndOk r.arena m) s.locals t idle tt
            (λ j _.
              EndOk-up s.arena (p + b) (s.locals j) (omega (arith, up)) fits nz (v.seen j)
                (v.ends j));
      stages =
          all-write (λ j m. StageOk r j m) s.locals t idle tt
            (λ j _.
              StageOk-map s r j (s.locals j) refl refl
                (λ ptr w. takes-Reserved s t b p ptr nz up fits w) (λ z. absurd (nz z))
                (v.stages j));
    }

-- The blocks that there were are still there.
pub Inside-add :
    (lo hi ptr size alignment : ℕ) (s : State)
    → Inside lo hi (all_blocks s.arena)
    → Inside lo hi (all_blocks (add_block ptr size alignment s).arena)
Inside-add lo hi ptr size alignment s h =
    let b : Block = record { ptr = ptr; size = size; alignment = alignment } in
    rw (all_blocks-append s.arena b) (Inside-append_left lo hi (all_blocks s.arena) (b ∷ []) h)

pub Seen-add :
    (ptr size alignment c : ℕ) (s : State)
    → Seen s.arena c
    → Seen (add_block ptr size alignment s).arena c
Seen-add ptr size alignment c s seen z =
    (Inside-add c (c + 1) ptr size alignment s (seen z).0, (seen z).1)

pub EndOk-map :
    (a r : Arena) (l : Local)
    → ((c : ℕ) → c ≡ read_of l → c ≢ 0 → r.current ≡ c → (a.current ≡ c) × (r.end ≡ a.end))
    → EndOk a l
    → EndOk r l
EndOk-map a r idle f e = tt
EndOk-map a r (asks _ _) f e = tt
EndOk-map a r (has_current _ _ _) f e = tt
EndOk-map a r (has_both b k c x) f e = λ z same. let g = f c refl z same in g.1 ∙ e z g.0
EndOk-map a r (locked _ _) f e = tt
EndOk-map a r (has_current_locked _ _ _) f e = tt
EndOk-map a r (full_block _ _) f e = tt
EndOk-map a r (got_block _ _ _) f e = tt
EndOk-map a r (no_range _ _ _) f e = tt
EndOk-map a r (has_end _ _ _) f e = tt
