-- ===== src/Prelude/Words.antt =====
-- `size_t`, `uint64_t` and `uint32_t` arithmetic, with its wrap-around.
use Prim.Native.Nat.{ℕ, ◌+◌, ◌-◌, ◌%◌, ◌^◌}

abbrev pub word : ℕ
word = 2 ^ 64

abbrev pub add_size : ℕ → ℕ → ℕ
add_size a b = (a + b) % word

abbrev pub sub_size : ℕ → ℕ → ℕ
sub_size a b = (a + word - b) % word
