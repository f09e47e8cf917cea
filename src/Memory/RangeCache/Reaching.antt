-- ===== src/Memory/RangeCache/Reaching.antt =====
-- What the calls of range_cache.hpp by any threads can lead to.
use native.Mathlib.Decide.{ℕ_discrete}
use structured_chaos.Prelude.{
  ℕ, ◌+◌, ◌≤◌, ◌<◌, ◌≡◌, refl, ◌≢◌, ◌⊎◌, ◌==◌, if◌then◌else◌, inl, inr, List, [], ◌∷◌, Option,
  arith, word, length,
}
use structured_chaos.Memory.RangeCache.{
  Range, Cache, max_ranges, init, reserve, release, trim, store_limit, Calls, without, begin_limit,
  end_limit,
}
use structured_chaos.Memory.RangeCache.Account.{
  sum, Inv, Kept, reserve-Kept, release-Kept, shrink-Kept,
}

-- How many calls of the list have a limit.
abbrev pub times : ℕ → List ℕ → ℕ
times bytes [] = 0
times bytes (n ∷ ns) = (if n == bytes then 1 else 0) + times bytes ns

-- What any thread does under the lock. Sizes are `size_t`.
pub data Step (os : ℕ → Option ℕ) (s : Calls) : Calls → Type 0 where
  reserves : (n : ℕ) → Step os s (record s { cache = (reserve os n s.cache).1 })
  releases : (r : Range) → Step os s (record s { cache = (release r s.cache).1 })
  trims : Step os s (record s { cache = (trim s.cache).1 })
  begins_limit : (n : ℕ) → n < word → Step os s (begin_limit n s)
  ends_limit : (n : ℕ) → 0 < times n s.shrinks → Step os s (end_limit n s)

pub data Reach (os : ℕ → Option ℕ) (limit : ℕ) : Calls → Type 0 where
  made : Reach os limit (record { cache = init limit; shrinks = [] })
  later : {s t : Calls} → Reach os limit s → Step os s t → Reach os limit t

-- The account, and the limit, which the cache may be over only as long as a call that set it is not over.
pub record Accounted (s : Calls) : Type 0 where
  pub counted : s.cache.bytes ≡ sum s.cache.ranges
  pub few : length s.cache.ranges ≤ max_ranges
  pub bytes_fit : s.cache.bytes < word
  pub limit_fits : s.cache.limit < word
  pub within : (s.cache.bytes ≤ s.cache.limit) ⊎ (0 < times s.cache.limit s.shrinks)

Accounted-Inv : (s : Calls) → Accounted s → Inv s.cache
Accounted-Inv s a = record {
  counted = a.counted;
  few = a.few;
  bytes_fit = a.bytes_fit;
  limit_fits = a.limit_fits;
}

-- A call that is over is not the one of another limit.
times-without : (m n : ℕ) (ns : List ℕ) → m ≢ n → times m (without n ns) ≡ times m ns
times-without m n [] d = refl
times-without m n (k ∷ ns) d = ground (arith, times-without m n ns d)

Kept-Accounted :
    (s : Calls) (d : Cache) → Accounted s → Kept s.cache d → Accounted (record s { cache = d })
Kept-Accounted s d a k =
    let v = k.inv in
    record {
      counted = v.counted;
      few = v.few;
      bytes_fit = v.bytes_fit;
      limit_fits = v.limit_fits;
      within = rw (k.same_limit) (elim k.under [
        | inr under ↦ inl under
        | inl less ↦ elim a.within [ inl was ↦ inl (omega arith) | inr under_way ↦ inr under_way ]
      ]);
    }

end_limit-Accounted : (n : ℕ) (s : Calls) → Accounted s → Accounted (end_limit n s)
end_limit-Accounted n s a =
    let (k, under) = shrink-Kept n s.cache (Accounted-Inv s a) in
    let v = k.inv in
    record {
      counted = v.counted;
      few = v.few;
      bytes_fit = v.bytes_fit;
      limit_fits = v.limit_fits;
      within = rw (k.same_limit) (elim (ℕ_discrete s.cache.limit n) [
        | yes same ↦ inl (omega arith)
        | no other ↦
            let still = times-without s.cache.limit n s.shrinks other in
            elim a.within [
              | inr under_way ↦ inr (omega arith)
              | inl was ↦ inl (elim k.under [ inl less ↦ omega arith | inr less ↦ less ])
            ]
      ]);
    }

Step-Accounted : {os : ℕ → Option ℕ} {s t : Calls} → Step os s t → Accounted s → Accounted t
unfolding trim store_limit
Step-Accounted {os} {s} (reserves n) a =
    Kept-Accounted s _ a (reserve-Kept os n s.cache (Accounted-Inv s a))
Step-Accounted {s = s} (releases r) a =
    Kept-Accounted s _ a (release-Kept r s.cache (Accounted-Inv s a))
Step-Accounted {s = s} trims a = Kept-Accounted s _ a (shrink-Kept 0 s.cache (Accounted-Inv s a)).0
Step-Accounted {s = s} (begins_limit n h) a = begun n s h a
  where
    begun : (n : ℕ) (s : Calls) → n < word → Accounted s → Accounted (begin_limit n s)
    begun n s h a = record {
      counted = a.counted;
      few = a.few;
      bytes_fit = a.bytes_fit;
      limit_fits = h;
      within = inr (ground arith);
    }
Step-Accounted {s = s} (ends_limit n h) a = end_limit-Accounted n s a

-- In every state that the locked parts of any calls can lead to from an empty cache with a limit
-- below 2^64, m_bytes is the sum of the kept ranges and below 2^64, there are at most 64 ranges,
-- and m_bytes is within the limit unless a call of limit with that limit has not shrunk the cache
-- yet.
pub Reach-Accounted :
    {os : ℕ → Option ℕ} {limit : ℕ} {s : Calls} → limit < word → Reach os limit s → Accounted s
Reach-Accounted h made = record {
  counted = refl;
  few = omega arith;
  bytes_fit = omega arith;
  limit_fits = h;
  within = inl (omega arith);
}
Reach-Accounted h (later r st) = Step-Accounted st (Reach-Accounted h r)
