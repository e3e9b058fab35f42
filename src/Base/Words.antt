-- ===== src/Base/Words.antt =====
-- Machine words: what Rust's `u16`, `u32` and `usize` operations yield in a release build, where
-- they wrap around.
use Prim.Native.Nat.{ℕ, ◌+◌, ◌-◌, ◌%◌}

abbrev pub u16_mod : ℕ
u16_mod = 65536

abbrev pub u32_mod : ℕ
u32_mod = 4294967296

-- `usize` on a 64-bit target.
abbrev pub usize_mod : ℕ
usize_mod = 18446744073709551616

abbrev pub u16 : ℕ → ℕ
u16 n = n % u16_mod

abbrev pub u32 : ℕ → ℕ
u32 n = n % u32_mod

abbrev pub usize : ℕ → ℕ
usize n = n % usize_mod

-- `a - b` on the words below the modulus `m`.
abbrev pub wrapping_sub : ℕ → ℕ → ℕ → ℕ
wrapping_sub m a b = (a + m - b) % m
