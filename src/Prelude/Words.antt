-- ===== src/Prelude/Words.antt =====
-- Machine words: bounds, saturating and wrapping arithmetic. `usize` has 64 bits.
use Prim.Native.Nat.{ℕ, ◌+◌, ◌-◌, ◌*◌, ◌%◌, ◌^◌, min}

abbrev pub u32_max : ℕ
u32_max = 2 ^ 32 - 1

abbrev pub u64_max : ℕ
u64_max = 2 ^ 64 - 1

abbrev pub usize_max : ℕ
usize_max = 2 ^ 64 - 1

abbrev pub u128_max : ℕ
u128_max = 2 ^ 128 - 1

abbrev pub saturating_add : ℕ → ℕ → ℕ → ℕ
saturating_add limit a b = min (a + b) limit

abbrev pub saturating_mul : ℕ → ℕ → ℕ → ℕ
saturating_mul limit a b = min (a * b) limit

-- `AtomicU64::fetch_add`, which wraps.
abbrev pub wrapping_add64 : ℕ → ℕ → ℕ
wrapping_add64 a b = (a + b) % 2 ^ 64
