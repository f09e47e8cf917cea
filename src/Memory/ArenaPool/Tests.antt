-- ===== src/Memory/ArenaPool/Tests.antt =====
-- A pool of arena_pool.cpp with one arena, which an owner used for two blocks and an object.
use structured_chaos.Prelude.{ℕ, ◌+◌, ◌*◌, ◌≡◌, refl, [], ◌∷◌, none, some}
use structured_chaos.Memory.Arena.{init, reset}
use structured_chaos.Memory.CleanupList.{empty_list, remember}
use structured_chaos.Memory.ArenaPool.{
  Resource, new_resource, Destructors, Pool, new_arenas, new_pool, acquire, release,
}
use structured_chaos.Memory.ArenaPool.Clean.{Clean, Reach, acquired-Clean}

abbrev block : ℕ → ℕ
block n = 1024 * (n + 1)

abbrev destructors : Destructors
destructors = record { made = λ n. []; arena_after = λ l a. a }

abbrev one : Pool
one = new_pool block 1 64

abbrev used : Resource
used = record {
  arena = record (init 64 1024) {
    current = 1040;
    blocks =
        record { ptr = 1024; size = 64; alignment = 16 }
        ∷ record { ptr = 4096; size = 64; alignment = 16 }
        ∷ [];
  };
  cleanup = remember 5 empty_list;
}

abbrev after : Pool
after = record (acquire 9 one).1 {
  arenas =
      record { arena = init 64 1024; cleanup = record (remember 5 empty_list) { head = none } }
      ∷ [];
}

acquire_takes_kept : (acquire 9 one).0 ≡ new_resource 64 1024
unfolding acquire new_arenas
acquire_takes_kept = refl

released : release destructors 2 2 (some used) (acquire 9 one).1 ≡ some (after, none)
unfolding acquire new_arenas release reset init remember
released = refl

after-Reach : Reach destructors block after
after-Reach = Reach.released 2 2 (some used) none (Reach.acquired 9 (Reach.made 1 64)) released

acquired-Clean_example : Clean (acquire 9 after).0
acquired-Clean_example = acquired-Clean 9 after-Reach
