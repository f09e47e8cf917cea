-- ===== src/Threading/RingQueue/Alone.antt =====
-- A thread in tryPop of ring_queue.hpp while no other thread does anything.
use structured_chaos.Prelude.{
  ℕ, ◌+◌, ◌<◌, ◌≡◌, ◌≢◌, ◌⊎◌, inl, inr, refl, sym, ap, ◌∙◌, subst, if_rule, arith, ◌==◌, add_size,
  write,
}
use structured_chaos.Threading.RingQueue.{
  Sizes, slot_of, granule_of, lap_of, Pop, not_won, won, moved, emptied, last, discards, turns_lap,
  done, Look, idle, at_head, saw_lap, saw_item, Queue, Step, takes_tail, finds_lap, constructs,
  sets_state, reads_head, finds_old_lap, sees_lap, finds_empty, sees_item, loses, wins, moves_out,
  clears_state, counts, resets_pops, discards_memory, turns, count_pop,
}

-- The accesses of the call of tryPop by thread t that read the position p, up to its return. Not `loses`:
-- while no other thread moves m_head, compare_exchange_weak fails only without a reason.
abbrev pub Own : (t p : ℕ) {z : Sizes} {q r : Queue} → Step z q r → Type 0
Own t p (takes_tail x l) = ⊥
Own t p (finds_lap o e l) = ⊥
Own t p (constructs o e) = ⊥
Own t p (sets_state o e) = ⊥
Own t p (reads_head u e) = ⊥
Own t p (finds_old_lap u e l) = u ≡ t
Own t p (sees_lap u e l) = u ≡ t
Own t p (finds_empty u e l) = u ≡ t
Own t p (sees_item u e l) = u ≡ t
Own t p (loses u e) = ⊥
Own t p (wins u e s) = u ≡ t
Own t p (moves_out o e s) = o ≡ p
Own t p (clears_state o e) = o ≡ p
Own t p (counts o e) = o ≡ p
Own t p (resets_pops o e) = o ≡ p
Own t p (discards_memory o cleared e) = o ≡ p
Own t p (turns o e) = o ≡ p

-- The call has not returned.
abbrev pub UnderWay : ℕ → ℕ → Queue → Type 0
UnderWay t p q = (q.looks t ≢ idle) ⊎ ((q.calls p).pop ≢ not_won)

-- Whatever the call does next, it can go on until it returned x.
pub data Ends (z : Sizes) (t p x : ℕ) : Queue → Type 0 where
  ended : {q : Queue} → (q.calls p).pop ≡ done x → Ends z t p x q
  goes :
      {q : Queue}
      → UnderWay t p q
      → (r : Queue) × (st : Step z q r) × Own t p st
      → ((r : Queue) (st : Step z q r) → Own t p st → Ends z t p x r)
      → Ends z t p x q

-- What the call holds once it won.
abbrev pub Holds : ℕ → Pop → Type 0
Holds x not_won = ⊥
Holds x won = Unit {0}
Holds x (moved y) = y ≡ x
Holds x (emptied y) = y ≡ x
Holds x (last y) = y ≡ x
Holds x (discards y) = y ≡ x
Holds x (turns_lap y) = y ≡ x
Holds x (done y) = y ≡ x

abbrev pub look_left : Look → ℕ
look_left idle = 0
look_left (at_head p) = 3
look_left (saw_lap p) = 2
look_left (saw_item p) = 1

abbrev pub pop_left : Pop → ℕ
pop_left not_won = 7
pop_left won = 6
pop_left (moved x) = 5
pop_left (emptied x) = 4
pop_left (last x) = 3
pop_left (discards x) = 2
pop_left (turns_lap x) = 1
pop_left (done x) = 0

module _ (z : Sizes) (t p x : ℕ) where
  pub record Looking (q : Queue) : Type 0 where
    pub look : (q.looks t ≡ at_head p) ⊎ (q.looks t ≡ saw_lap p) ⊎ (q.looks t ≡ saw_item p)
    pub head : q.head ≡ p
    pub free : (q.calls p).pop ≡ not_won
    pub lap : q.laps (granule_of z p) ≡ lap_of z p
    pub full : q.states (slot_of z p) ≢ 0
    pub item : q.item p ≡ x

  pub record Holding (q : Queue) : Type 0 where
    pub quiet : q.looks t ≡ idle
    pub holds : Holds x (q.calls p).pop
    pub item : q.item p ≡ x

  abbrev pub Place : Queue → Type 0
  Place q = Looking q ⊎ Holding q

  abbrev pub left : Queue → ℕ
  left q = look_left (q.looks t) + pop_left (q.calls p).pop

  abbrev pub Goes : Queue → Queue → Type 0
  Goes q r = Place r × (left r < left q)

  -- A look of the thread that it is not at.
  pub not_quiet :
      (q : Queue) (u : ℕ) {l : Look} → Holding q → q.looks u ≡ l → u ≡ t → look_left l ≢ 0 → ⊥
  not_quiet q u h e own n = n (ap look_left (sym e ∙ ap q.looks own ∙ h.quiet))

  -- A pop that holds something is not at a look.
  pub not_free :
      (q : Queue) (o : ℕ) {b : Pop} → Looking q → (q.calls o).pop ≡ b → o ≡ p → pop_left b ≢ 7 → ⊥
  not_free q o h e own n = n (ap pop_left (sym e ∙ ap (λ k. (q.calls k).pop) own ∙ h.free))

  pub held : (q : Queue) (o : ℕ) {b : Pop} → Holding q → (q.calls o).pop ≡ b → o ≡ p → Holds x b
  held q o h e own = subst (Holds x) (ap (λ k. (q.calls k).pop) (sym own) ∙ e) h.holds

  -- One look that goes on to the next.
  pub looks_on :
      (q : Queue) (u o : ℕ) (l : Look)
      → Looking q
      → u ≡ t
      → o ≡ p
      → (l ≡ saw_lap p) ⊎ (l ≡ saw_item p)
      → look_left l < look_left (q.looks u)
      → Goes q (record q { looks = write q.looks u l })
  looks_on q u o l k own at_p new less =
      let here : write q.looks u l t ≡ l = ground arith in
      let less' : look_left l < look_left (q.looks t) =
        subst (λ v. look_left l < look_left (q.looks v)) own less in
      (
        inl (record {
          look = rw (here) (inr new);
          head = k.head;
          free = k.free;
          lap = k.lap;
          full = k.full;
          item = k.item;
        }),
        rw (here) (omega arith),
      )

  -- One access of the pop that goes on to the next.
  pub holds_on :
      (q r : Queue)
      → Holding q
      → r.looks t ≡ q.looks t
      → r.item p ≡ q.item p
      → Holds x (r.calls p).pop
      → pop_left (r.calls p).pop < pop_left (q.calls p).pop
      → Goes q r
  holds_on q r h looks item holds less = (
    inr (record { quiet = looks ∙ h.quiet; holds = holds; item = item ∙ h.item }),
    omega (arith, ap look_left looks),
  )

  -- A pop that counts itself goes on, or is over.
  pub counts_on : (q : Queue) → Holding q → (q.calls p).pop ≡ emptied x → Goes q (count_pop z p x q)
  unfolding count_pop
  counts_on q h e =
      let rank = ap pop_left e in
      if_rule (Goes q) z.reclaim
        (λ _.
          if_rule (Goes q) (add_size (q.pops (granule_of z p)) 1 == z.granule_slots)
            (λ _. holds_on q _ h refl refl (ground arith) (ground arith))
            (λ _. holds_on q _ h refl refl (ground arith) (ground arith)))
        (λ _. holds_on q _ h refl refl (ground arith) (ground arith))

  -- What the position is that the thread looks at.
  pub looked_at : (q : Queue) (u o : ℕ) → Looking q → u ≡ t → q.looks u ≡ at_head o → o ≡ p
  looked_at q u o k own e = same_at (q.looks t) k.look (ap q.looks (sym own) ∙ e)
    where
      same_at :
          (l : Look) → (l ≡ at_head p) ⊎ (l ≡ saw_lap p) ⊎ (l ≡ saw_item p) → l ≡ at_head o → o ≡ p
      same_at l h e = ground arith

  pub lapped_at : (q : Queue) (u o : ℕ) → Looking q → u ≡ t → q.looks u ≡ saw_lap o → o ≡ p
  lapped_at q u o k own e = same_at (q.looks t) k.look (ap q.looks (sym own) ∙ e)
    where
      same_at :
          (l : Look) → (l ≡ at_head p) ⊎ (l ≡ saw_lap p) ⊎ (l ≡ saw_item p) → l ≡ saw_lap o → o ≡ p
      same_at l h e = ground arith

  pub found_at : (q : Queue) (u o : ℕ) → Looking q → u ≡ t → q.looks u ≡ saw_item o → o ≡ p
  found_at q u o k own e = same_at (q.looks t) k.look (ap q.looks (sym own) ∙ e)
    where
      same_at :
          (l : Look) → (l ≡ at_head p) ⊎ (l ≡ saw_lap p) ⊎ (l ≡ saw_item p) → l ≡ saw_item o → o ≡ p
      same_at l h e = ground arith
