-- ===== src/Threading/Loop/Coverage.antt =====
-- The threads of a loop of parallel_for.hpp call the function for every item once.
use structured_chaos.Prelude.{
  ℕ, ◌+◌, ◌-◌, ◌*◌, ◌≤◌, ◌<◌, ◌≡◌, ◌≢◌, refl, sym, ap, ◌∙◌, subst, inl, inr, Bool, true, false, leb,
  arith, min, word, add_size, Bool-cases, write, all-write, total, total-write, total-write_same,
  total_lt,
}
use native.Mathlib.Nat.{mul-le-mul_left}
use structured_chaos.Threading.Loop.{
  Local, ready, in_call, failing, finished, stopped, Job, new_job, chunk_end, go_to, take_chunk,
  Step, takes, returns, throws, ends_loop, stops, Reach, started, later, covers, in_range,
}

-- Threads that found no chunk, or threw, take none again.
abbrev pub ended : Local → ℕ
ended ready = 0
ended in_call = 0
ended failing = 0
ended finished = 1
ended stopped = 0

pub record Inv (count grain threads : ℕ) (j : Job) : Type 0 where
  pub once : (i : ℕ) → covers i j.calls ≤ in_range 0 (min j.next count) i
  pub all_taken : j.failed ≡ false → (i : ℕ) → covers i j.calls ≡ in_range 0 (min j.next count) i
  pub bounded : j.next ≤ count + grain * total ended threads j.locals + grain - 1
  pub past_end : (t : ℕ) → ended (j.locals t) ≢ 0 → count ≤ j.next
  pub flagged : (t : ℕ) → j.locals t ≡ failing → j.failed ≡ true

-- What was taken, with the next chunk.
taken_in_range :
    (count grain n i : ℕ)
    → n < count
    → n + grain < word
    → in_range n (chunk_end count grain n) i + in_range 0 (min n count) i
      ≡ in_range 0 (min (add_size n grain) count) i
taken_in_range count grain n i l w =
    let sum : add_size n grain ≡ n + grain = omega arith in rw (sum) (ground arith)

module _ (count grain threads : ℕ) (some_items : 0 < grain)
    (fits : count + grain * (threads + 1) ≤ word) where
  new_job-Inv : Inv count grain threads new_job
  new_job-Inv = record {
    once = λ i. ground arith;
    all_taken = λ _ i. ground arith;
    bounded = omega arith;
    past_end = λ t n. absurd (n refl);
    flagged = λ t h. absurd (ground arith);
  }

  ended_le : (l : Local) → ended l ≤ 1
  ended_le ready = omega arith
  ended_le in_call = omega arith
  ended_le failing = omega arith
  ended_le finished = omega arith
  ended_le stopped = omega arith

  -- No sum wraps while a thread that is not finished takes a chunk.
  no_wrap :
      (t : ℕ) (j : Job)
      → t < threads
      → j.locals t ≡ ready
      → Inv count grain threads j
      → j.next + grain < word
  no_wrap t j l h v =
      let few = total_lt ended threads j.locals t (λ i. ended_le (j.locals i)) l (ap ended h) in
      let most = mul-le-mul_left grain few in omega (arith, v.bounded, most, fits, some_items)

  take_chunk-Inv :
      (t : ℕ) (j : Job)
      → t < threads
      → j.locals t ≡ ready
      → Inv count grain threads j
      → Inv count grain threads (take_chunk count grain t j)
  unfolding take_chunk
  take_chunk-Inv t j l h v =
      let w = no_wrap t j l h v in
      let sum : add_size j.next grain ≡ j.next + grain = omega (arith, w) in
      elim (Bool-cases (leb count j.next)) [
        | inl past ↦
            let same : min (add_size j.next grain) count ≡ min j.next count = ground (arith, sum) in
            let more = total-write ended threads j.locals t finished l in
            rw (past, take_chunk)
              (record {
                once = λ i. subst (λ m. covers i j.calls ≤ in_range 0 m i) (sym same) (v.once i);
                all_taken = λ f i.
                    subst (λ m. covers i j.calls ≡ in_range 0 m i) (sym same) (v.all_taken f i);
                bounded =
                    let one : total ended threads (write j.locals t finished)
                        ≡ total ended threads j.locals + 1 =
                      omega (arith, more, ap ended h) in
                    let prod = ap (λ x. grain * x) one in grind (arith, prod, sum, v.bounded);
                past_end =
                    all-write (λ _ m. ended m ≢ 0 → count ≤ add_size j.next grain) j.locals t
                      finished (λ _. ground (arith, sum))
                      (λ i _ n. omega (arith, sum, v.past_end i n));
                flagged =
                    all-write (λ _ m. m ≡ failing → j.failed ≡ true) j.locals t finished
                      (λ h. absurd (ground arith)) (λ i _. v.flagged i);
              })
        | inr before ↦
            let less : j.next < count = ground arith in
            rw (before, take_chunk)
              (record {
                once = λ i.
                    let o = v.once i in
                    omega (arith, o, taken_in_range count grain j.next i less w);
                all_taken = λ f i.
                    let o = v.all_taken f i in
                    omega (arith, o, taken_in_range count grain j.next i less w);
                bounded = omega (arith, sum, less);
                past_end =
                    all-write (λ _ m. ended m ≢ 0 → count ≤ add_size j.next grain) j.locals t
                      in_call (λ n. absurd (n refl)) (λ i _ n. omega (arith, sum, v.past_end i n));
                flagged =
                    all-write (λ _ m. m ≡ failing → j.failed ≡ true) j.locals t in_call
                      (λ h. absurd (ground arith)) (λ i _. v.flagged i);
              })
      ]

  -- Nothing is taken, and no more threads are finished.
  moves-Inv :
      (t : ℕ) (l : Local) (f : Bool) (j : Job)
      → ended l ≡ 0
      → ended (j.locals t) ≡ 0
      → (f ≡ false → j.failed ≡ false)
      → (l ≡ failing → f ≡ true)
      → Inv count grain threads j
      → Inv count grain threads (go_to t l (record j { failed = f }))
  moves-Inv t l f j z y fails now v = record {
    once = v.once;
    all_taken = λ h i. v.all_taken (fails h) i;
    bounded = omega (
      arith,
      v.bounded,
      ap (λ x. grain * x) (total-write_same ended threads j.locals t l (z ∙ sym y)),
    );
    past_end =
        all-write (λ _ m. ended m ≢ 0 → count ≤ j.next) j.locals t l (λ n. absurd (n z))
          (λ i _. v.past_end i);
    flagged =
        all-write (λ _ m. m ≡ failing → f ≡ true) j.locals t l now
          (λ i _ h. elim (Bool-cases f) [
            | inl e ↦ e
            | inr e ↦ absurd (ground (arith, fails e, v.flagged i h))
          ]);
  }

  ends_loop-Inv :
      (t : ℕ) (j : Job)
      → j.locals t ≡ failing
      → Inv count grain threads j
      → Inv count grain threads (go_to t finished (record j { next = count }))
  ends_loop-Inv t j h v = record {
    once = λ i. let o = v.once i in ground arith;
    all_taken = λ f i. absurd (ground (arith, v.flagged t h));
    bounded = omega (arith, some_items);
    past_end =
        all-write (λ _ m. ended m ≢ 0 → count ≤ count) j.locals t finished (λ _. omega arith)
          (λ i _ _. omega arith);
    flagged =
        all-write (λ _ m. m ≡ failing → j.failed ≡ true) j.locals t finished
          (λ h. absurd (ground arith)) (λ i _. v.flagged i);
  }

  Step-Inv :
      {i j : Job}
      → Inv count grain threads i
      → Step count grain threads i j
      → Inv count grain threads j
  Step-Inv {i} v (takes t l h) = take_chunk-Inv t i l h v
  Step-Inv {i} v (returns t h) =
      moves-Inv t ready i.failed i refl (ap ended h) (λ f. f) (λ h. absurd (ground arith)) v
  Step-Inv {i} v (throws t h) =
      moves-Inv t failing true i refl (ap ended h) (λ f. absurd (ground arith)) (λ _. refl) v
  Step-Inv {i} v (ends_loop t h) = ends_loop-Inv t i h v
  Step-Inv {i} v (stops t n h) =
      moves-Inv t stopped i.failed i refl (ap ended h) (λ f. f) (λ h. absurd (ground arith)) v

  pub Reach-Inv : {j : Job} → Reach count grain threads j → Inv count grain threads j
  Reach-Inv started = new_job-Inv
  Reach-Inv (later r s) = Step-Inv (Reach-Inv r) s

  -- Whatever order the steps of the owner and the helpers of a loop come in, also after a call
  -- threw, no item is in two calls and no call goes past the last item. A chunk has at least one
  -- item, and the items, a chunk for each thread and one more are at most 2^64 together.
  pub called_once :
      {j : Job} (i : ℕ) → Reach count grain threads j → covers i j.calls ≤ in_range 0 count i
  called_once i r = let o = (Reach-Inv r).once i in ground arith

  -- Whatever order the steps of the owner and the helpers of a loop come in, once one of them found
  -- no chunk left and no call threw, every item of the loop is in exactly one call that was
  -- started, and no call goes past the last item. A chunk has at least one item, and the items, a
  -- chunk for each thread and one more are at most 2^64 together.
  pub all_called :
      {j : Job} (t i : ℕ)
      → Reach count grain threads j
      → j.locals t ≡ finished
      → j.failed ≡ false
      → covers i j.calls ≡ in_range 0 count i
  all_called t i r h f =
      let v = Reach-Inv r in
      let past = v.past_end t (λ z. absurd (ground (arith, ap ended h))) in
      let o = v.all_taken f i in ground arith
