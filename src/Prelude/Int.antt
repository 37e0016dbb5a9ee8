-- ===== src/Prelude/Int.antt =====
-- Signed integers: `negsuc n` is -(n + 1). i64 values with their saturating operations.
use Prim.Native.Nat.{ℕ, zero, suc, ◌+◌, ◌-◌, ◌*◌}
use mathlib.Core.Bool.{Bool, true, false}
use ruscker.Prelude.Tests.{leb, if◌then◌else◌}

pub data ℤ : Type 0 where
  pos : ℕ → ℤ
  negsuc : ℕ → ℤ

-- a ≤ b, as a test.
abbrev pub leb_ℤ : ℤ → ℤ → Bool
leb_ℤ (pos a) (pos b) = leb a b
leb_ℤ (pos a) (negsuc b) = false
leb_ℤ (negsuc a) (pos b) = true
leb_ℤ (negsuc a) (negsuc b) = leb b a

-- -n.
abbrev pub neg : ℕ → ℤ
neg zero = pos zero
neg (suc n) = negsuc n

-- a - b.
abbrev pub sub_ℕ : ℕ → ℕ → ℤ
sub_ℕ a b = if leb b a then pos (a - b) else neg (b - a)

-- The bounds of i64: `i64::MAX`, and the magnitude of `i64::MIN` less one.
abbrev pub i64_max : ℕ
i64_max = 9223372036854775807

-- `n as i64` for an n of type u64.
abbrev pub as_i64 : ℕ → ℤ
as_i64 n = if leb n i64_max then pos n else negsuc (18446744073709551615 - n)

-- An integer brought into the range of i64.
abbrev pub saturate : ℤ → ℤ
saturate (pos n) = if leb n i64_max then pos n else pos i64_max
saturate (negsuc n) = if leb n i64_max then negsuc n else negsuc i64_max

-- `saturating_mul` by a positive number.
abbrev pub saturating_mul : ℤ → ℕ → ℤ
saturating_mul (pos n) k = saturate (pos (n * k))
saturating_mul (negsuc n) k = saturate (neg (suc n * k))

abbrev pub add_ℤ : ℤ → ℤ → ℤ
add_ℤ (pos a) (pos b) = pos (a + b)
add_ℤ (pos a) (negsuc b) = sub_ℕ a (suc b)
add_ℤ (negsuc a) (pos b) = sub_ℕ b (suc a)
add_ℤ (negsuc a) (negsuc b) = negsuc (suc (a + b))

abbrev pub saturating_add : ℤ → ℤ → ℤ
saturating_add a b = saturate (add_ℤ a b)
