-- ===== src/Base/Words.antt =====
-- Fixed-width counters. An `int64` counter is its bit pattern, so one law serves both signs.
use Prim.Native.Nat.{ℕ, ◌+◌, ◌%◌, ◌^◌}

-- `x++` on a uint32 and on a 64-bit word.
abbrev pub incr32 : ℕ → ℕ
incr32 n = (n + 1) % 2 ^ 32

abbrev pub incr64 : ℕ → ℕ
incr64 n = (n + 1) % 2 ^ 64
