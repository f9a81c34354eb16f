-- ===== src/Base/Words.antt =====
-- Arithmetic on `u32` and `u16`: `+` wraps in a release build, and the saturating operations clamp.
use Prim.Native.Nat.{ℕ, ◌+◌, ◌*◌, ◌%◌, min}

abbrev pub u32_max : ℕ
u32_max = 4294967295

abbrev pub u16_max : ℕ
u16_max = 65535

-- `a + b` on `u32`.
abbrev pub add_u32 : ℕ → ℕ → ℕ
add_u32 a b = (a + b) % 4294967296

abbrev pub saturating_add_u32 : ℕ → ℕ → ℕ
saturating_add_u32 a b = min (a + b) u32_max

abbrev pub saturating_mul_u32 : ℕ → ℕ → ℕ
saturating_mul_u32 a b = min (a * b) u32_max

abbrev pub usize_max : ℕ
usize_max = 18446744073709551615

abbrev pub saturating_add_usize : ℕ → ℕ → ℕ
saturating_add_usize a b = min (a + b) usize_max

abbrev pub saturating_mul_usize : ℕ → ℕ → ℕ
saturating_mul_usize a b = min (a * b) usize_max
