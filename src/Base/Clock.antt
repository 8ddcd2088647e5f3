-- ===== src/Base/Clock.antt =====
-- Time. A `float` of seconds is the whole number of its microseconds, so every comparison and sum
-- of times in the code is exact here.
use Prim.Native.Nat.{ℕ, ◌*◌}

abbrev pub microseconds : ℕ
microseconds = 1000000

abbrev pub seconds : ℕ → ℕ
seconds n = n * microseconds
