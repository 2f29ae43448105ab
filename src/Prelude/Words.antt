-- ===== src/Prelude/Words.antt =====
-- Fixed-width unsigned integers: a value is a number, and each operation wraps.
use Prim.Native.Nat.{ℕ, ◌+◌, ◌-◌, ◌%◌}
use web_bou.Prelude.Int.{ℤ, pos_part, neg_part}

abbrev pub u32_mod : ℕ
u32_mod = 4294967296

abbrev pub u64_mod : ℕ
u64_mod = 18446744073709551616

abbrev pub u32 : ℕ → ℕ
u32 n = n % 4294967296

abbrev pub u64 : ℕ → ℕ
u64 n = n % 18446744073709551616

-- a - b in uint64.
abbrev pub sub64 : ℕ → ℕ → ℕ
sub64 a b = (a + 18446744073709551616 - b) % 18446744073709551616

-- The conversion of an int to uint32.
abbrev pub u32_of_int : ℤ → ℕ
u32_of_int z = (pos_part z + 4294967296 - neg_part z % 4294967296) % 4294967296
