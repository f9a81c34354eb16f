-- ===== src/Base/Int.antt =====
-- Integers over the native numbers, and the `i64` operations of the source on them.
use Prim.Native.Nat.{ℕ, suc, ◌+◌, ◌-◌, ◌≤◌}
use mathlib.Core.Path.{◌≡◌}
use mathlib.Core.Bool.{Bool}
use native.Mathlib.Omega.{arith}
use veredus.Base.Tests.{leb, if◌then◌else◌}

-- `negsuc n` is -(n + 1).
pub data ℤ : Type 0 where
  pos : ℕ → ℤ
  negsuc : ℕ → ℤ

abbrev pub pos_part : ℤ → ℕ
pos_part (pos n) = n
pos_part (negsuc n) = 0

abbrev pub neg_part : ℤ → ℕ
neg_part (pos n) = 0
neg_part (negsuc n) = suc n

-- a - b, as an integer.
abbrev pub sub_ℕ : ℕ → ℕ → ℤ
sub_ℕ a b = if leb b a then pos (a - b) else negsuc (b - a - 1)

abbrev pub leb_ℤ : ℤ → ℤ → Bool
leb_ℤ a b = leb (pos_part a + neg_part b) (pos_part b + neg_part a)

abbrev pub i64_max : ℕ
i64_max = 9223372036854775807

-- The value of a sum or difference of two `i64`, given as x - y, after wrapping.
unfoldable pub wrap_i64 : ℕ → ℕ → ℤ
wrap_i64 x y =
    if leb x (y + 9223372036854775807)
    then (if leb y (x + 9223372036854775808) then sub_ℕ x y else sub_ℕ (x + 18446744073709551616) y)
    else sub_ℕ x (y + 18446744073709551616)

-- `a - b` on `i64`.
unfoldable pub sub_i64 : ℤ → ℤ → ℤ
unfolding wrap_i64
sub_i64 a b = wrap_i64 (pos_part a + neg_part b) (neg_part a + pos_part b)

-- `saturating_add` on `i64`.
unfoldable pub saturating_add_i64 : ℤ → ℤ → ℤ
saturating_add_i64 a b =
    let x = pos_part a + pos_part b in
    let y = neg_part a + neg_part b in
    if leb x (y + 9223372036854775807)
    then (if leb y (x + 9223372036854775808) then sub_ℕ x y else negsuc 9223372036854775807)
    else pos 9223372036854775807

unfoldable pub min_ℤ : ℤ → ℤ → ℤ
min_ℤ a b = if leb_ℤ a b then a else b

unfoldable pub max_ℤ : ℤ → ℤ → ℤ
max_ℤ a b = if leb_ℤ a b then b else a

-- `sub_i64` is exact where the difference does not overflow.
pub sub_i64_parts :
    (a : ℤ) (b : ℕ)
    → neg_part a + b ≤ 9223372036854775808
    → pos_part a ≤ 9223372036854775807
    → pos_part (sub_i64 a (pos b)) + neg_part a + b ≡ neg_part (sub_i64 a (pos b)) + pos_part a
unfolding sub_i64 wrap_i64
sub_i64_parts (pos n) b h k = ground arith
sub_i64_parts (negsuc n) b h k = ground arith
