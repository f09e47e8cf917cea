-- ===== src/Threading/RingQueue/Counting.antt =====
-- The pops of one granule in its lap, for `release` of ring_queue.hpp.
use native.Mathlib.Decide.{ℕ_discrete}
use structured_chaos.Prelude.{
  ℕ, ◌+◌, ◌≤◌, ◌<◌, ◌≡◌, refl, ◌≢◌, ◌⊎◌, inl, inr, arith, ap, ◌==◌, if◌then◌else◌, write, total,
  all-write, total-write, total_zero, total-write_same, total_lt, total_congr, total_full,
}
use structured_chaos.Threading.RingQueue.{
  Push, to_come, waits, has_lap, wrote, placed, Pop, not_won, won, moved, emptied, last, discards,
  turns_lap, done,
}

abbrev pub push_rank : Push → ℕ
push_rank to_come = 0
push_rank waits = 1
push_rank has_lap = 2
push_rank wrote = 3
push_rank placed = 4

abbrev pub pop_rank : Pop → ℕ
pop_rank not_won = 0
pop_rank won = 1
pop_rank (moved x) = 2
pop_rank (emptied x) = 3
pop_rank (last x) = 4
pop_rank (discards x) = 5
pop_rank (turns_lap x) = 5
pop_rank (done x) = 6

pub placed_of_rank : (a : Push) → push_rank a ≡ 4 → a ≡ placed
placed_of_rank a e = ground arith

pub not_won_of_rank : (b : Pop) → pop_rank b ≡ 0 → b ≡ not_won
not_won_of_rank b e = ground arith

-- 1 for a pop that is over, 0 for another one.
abbrev pub over : Pop → ℕ
over b = if pop_rank b == 6 then 1 else 0

over_le : (b : Pop) → over b ≤ 1
over_le b = ground arith

-- Either the pops that are over are counted, and some are not over, or one pop is moving the granule on.
pub data GranuleOk (slots : ℕ) (pops : ℕ → Pop) (count : ℕ) : Type 0 where
  counting :
      count ≡ total over slots pops
      → total over slots pops < slots
      → ((i : ℕ) → i < slots → (pop_rank (pops i) ≤ 3) ⊎ (pop_rank (pops i) ≡ 6))
      → GranuleOk slots pops count
  closing :
      (i : ℕ)
      → i < slots
      → 4 ≤ pop_rank (pops i)
      → pop_rank (pops i) ≤ 5
      → (pop_rank (pops i) ≡ 5 → count ≡ 0)
      → ((j : ℕ) → j < slots → i ≢ j → pop_rank (pops j) ≡ 6)
      → GranuleOk slots pops count

pub GranuleOk-congr :
    {slots : ℕ} {f g : ℕ → Pop} {count : ℕ}
    → ((i : ℕ) → i < slots → f i ≡ g i)
    → GranuleOk slots f count
    → GranuleOk slots g count
GranuleOk-congr {slots} {f} {g} h (counting c l r) =
    let e = total_congr over slots f g h in
    counting (omega arith) (omega arith) (λ i b. omega (arith, r i b, ap pop_rank (h i b)))
GranuleOk-congr h (closing i b lo hi z o) =
    closing i b (omega (arith, ap pop_rank (h i b))) (omega (arith, ap pop_rank (h i b)))
      (λ e. z (omega (arith, ap pop_rank (h i b))))
      (λ j c n. omega (arith, o j c n, ap pop_rank (h j c)))

-- A pop that is not over goes on, and is not over yet.
pub GranuleOk-goes :
    {slots : ℕ} {f : ℕ → Pop} {count : ℕ} (i : ℕ) (b : Pop)
    → i < slots
    → pop_rank (f i) ≤ 2
    → pop_rank b ≤ 3
    → GranuleOk slots f count
    → GranuleOk slots (write f i b) count
GranuleOk-goes {slots} {f} i b l lo hi (counting c t r) =
    let same = total-write_same over slots f i b (ground arith) in
    counting (omega arith) (omega arith) (
      all-write (λ j a. j < slots → (pop_rank a ≤ 3) ⊎ (pop_rank a ≡ 6)) f i b (λ _. inl hi)
        (λ j n. r j))
GranuleOk-goes {f = f} i b l lo hi (closing k m g h z o) = elim (ℕ_discrete k i) [
  | yes e ↦ absurd (omega (arith, ap (λ j. pop_rank (f j)) e))
  | no n ↦ absurd (omega (arith, o i l n))
]

module _ {slots : ℕ} (f : ℕ → Pop) (i : ℕ) (l : i < slots) where
  -- If one more makes all, all others are over.
  others_over :
      pop_rank (f i) ≡ 3
      → total over slots f + 1 ≡ slots
      → (j : ℕ) → j < slots
      → i ≢ j
      → pop_rank (f j) ≡ 6
  others_over e t j b n = elim (ℕ_discrete (pop_rank (f j)) 6) [
    | yes s ↦ s
    | no m ↦
        let whole = total-write over slots f i (done 0) l in
        let g = write f i (done 0) in
        let gj : g j ≡ f j = ground arith in
        let less = total_lt over slots g j (λ k. over_le (g k)) b (rw gj (ground arith)) in
        absurd (ground arith)
  ]

module _ {slots : ℕ} {f : ℕ → Pop} {count : ℕ} (i : ℕ) (l : i < slots)
    (ok : GranuleOk slots f count) where
  -- While a pop is not counted, the granule is counting.
  not_counted :
      pop_rank (f i) ≡ 3
      → (count ≡ total over slots f)
        × (total over slots f < slots)
        × ((j : ℕ) → j < slots → (pop_rank (f j) ≤ 3) ⊎ (pop_rank (f j) ≡ 6))
  not_counted e = elim ok [
    | counting c t r ↦ (c, t, r)
    | closing k m g h z o ↦ elim (ℕ_discrete k i) [
      | yes s ↦ absurd (omega (arith, ap (λ j. pop_rank (f j)) s))
      | no n ↦ absurd (omega (arith, o i l n))
    ]
  ]

  pub GranuleOk-count_lt : pop_rank (f i) ≡ 3 → count < slots
  GranuleOk-count_lt e = omega (arith, not_counted e)

  -- The last pop of a granule.
  pub GranuleOk-last :
      (b : Pop)
      → pop_rank (f i) ≡ 3
      → count + 1 ≡ slots
      → 4 ≤ pop_rank b
      → pop_rank b ≤ 5
      → (new : ℕ) → (pop_rank b ≡ 5 → new ≡ 0)
      → GranuleOk slots (write f i b) new
  GranuleOk-last b e c lo hi new z =
      let (c', t, r) = not_counted e in
      let here : write f i b i ≡ b = ground arith in
      closing i l (rw here lo) (rw here hi) (rw here z) (λ j m n.
        let there : write f i b j ≡ f j = ground arith in
        rw there (others_over f i l e (omega arith) j m n))

  -- A pop that is not the last one of its granule.
  pub GranuleOk-done :
      (x : ℕ)
      → pop_rank (f i) ≡ 3
      → count + 1 ≢ slots
      → GranuleOk slots (write f i (done x)) (count + 1)
  GranuleOk-done x e c =
      let (c', t, r) = not_counted e in
      let more = total-write over slots f i (done x) l in
      let was : over (f i) ≡ 0 = ground arith in
      counting (omega arith) (omega arith) (
        all-write (λ j a. j < slots → (pop_rank a ≤ 3) ⊎ (pop_rank a ≡ 6)) f i (done x)
          (λ _. inr refl) (λ j n. r j))

  -- The last pop of a granule is the only one that is not over.
  pub GranuleOk-alone :
      4 ≤ pop_rank (f i)
      → pop_rank (f i) ≤ 5
      → (pop_rank (f i) ≡ 5 → count ≡ 0) × ((j : ℕ) → j < slots → i ≢ j → pop_rank (f j) ≡ 6)
  GranuleOk-alone lo hi = elim ok [
    | counting c t r ↦ absurd (omega (arith, r i l))
    | closing k m g h z o ↦ elim (ℕ_discrete k i) [
      | yes s ↦ (
        λ e. z (omega (arith, ap (λ j. pop_rank (f j)) s)),
        λ j b n. o j b (λ e. n (omega arith)),
      )
      | no n ↦ absurd (omega (arith, o i l n))
    ]
  ]

  pub GranuleOk-closes :
      (b : Pop)
      → 4 ≤ pop_rank (f i)
      → pop_rank (f i) ≤ 5
      → pop_rank b ≡ 5
      → GranuleOk slots (write f i b) 0
  GranuleOk-closes b lo hi five =
      let alone = GranuleOk-alone lo hi in
      let here : write f i b i ≡ b = ground arith in
      closing i l (rw here (omega arith)) (rw here (omega arith)) (λ _. refl)
        (λ j m n. let there : write f i b j ≡ f j = ground arith in rw there (alone.1 j m n))

-- A granule at the start of a lap.
pub GranuleOk-fresh :
    {slots : ℕ} {f : ℕ → Pop}
    → 0 < slots
    → ((i : ℕ) → i < slots → pop_rank (f i) ≡ 0)
    → GranuleOk slots f 0
GranuleOk-fresh {slots} {f} pos z =
    let same = total_congr over slots f (λ _. not_won) (λ i l. not_won_of_rank (f i) (z i l)) in
    let nothing = total_zero over slots (λ _. not_won) (λ _. refl) in
    counting (omega arith) (omega arith) (λ i l. inl (omega (arith, z i l)))

-- Once all pops of a granule are over, its lap is over.
pub GranuleOk-moves_on :
    {slots : ℕ} {f : ℕ → Pop} {count : ℕ}
    → GranuleOk slots f count
    → ((i : ℕ) → i < slots → pop_rank (f i) ≡ 6)
    → ⊥
GranuleOk-moves_on {slots} {f} (counting c t r) all =
    let full = total_full over slots f (λ i l. rw (all i l) refl) in omega arith
GranuleOk-moves_on (closing i b lo hi z o) all = omega (arith, all i b)
