-- ===== src/Base/Int.antt =====
-- Signed integers over the native numbers, and Go's int64.
use Prim.Native.Nat.{ℕ, zero, suc, ◌+◌, ◌*◌, ◌-◌, ◌/◌, ◌%◌, ◌<◌}
use mathlib.Core.Bool.{Bool, true, false}
use fyer_webframe.Base.Tests.{ltb, if◌then◌else◌}

-- `negsuc n` is -(n + 1).
pub data ℤ : Type 0 where
  pos : ℕ → ℤ
  negsuc : ℕ → ℤ

-- -n for a natural number n.
abbrev pub neg_of : ℕ → ℤ
neg_of zero = pos 0
neg_of (suc n) = negsuc n

abbrev pub half64 : ℕ
half64 = 9223372036854775808

abbrev pub mod64 : ℕ
mod64 = 18446744073709551616

-- The int64 with the bit pattern of `n`: Go's conversion int64(v) of an unsigned v.
unfoldable pub to_int64 : ℕ → ℤ
to_int64 n = let r = n % mod64 in if ltb r half64 then pos r else negsuc (mod64 - 1 - r)

-- The values that an int64 has.
abbrev pub IsInt64 : ℤ → Type 0
IsInt64 (pos n) = n < half64
IsInt64 (negsuc n) = n < half64

-- -x on int64, with its wrap-around: the least value is its own negation.
unfoldable pub neg64 : ℤ → ℤ
neg64 (pos n) = neg_of n
neg64 (negsuc n) = if ltb (suc n) half64 then pos (suc n) else negsuc n

-- x < y.
unfoldable pub ltℤ : ℤ → ℤ → Bool
ltℤ (pos a) (pos b) = ltb a b
ltℤ (pos a) (negsuc b) = false
ltℤ (negsuc a) (pos b) = true
ltℤ (negsuc a) (negsuc b) = ltb b a

-- Go's / and % by a positive number: the quotient is truncated towards zero.
unfoldable pub quot : ℤ → ℕ → ℤ
quot (pos a) d = pos (a / d)
quot (negsuc a) d = neg_of (suc a / d)

unfoldable pub rem : ℤ → ℕ → ℤ
rem (pos a) d = pos (a % d)
rem (negsuc a) d = neg_of (suc a % d)

abbrev pub difference : ℕ → ℕ → ℤ
difference a b = if ltb a b then neg_of (b - a) else pos (a - b)

-- Sum, difference and multiple without a bound.
infixl 20 ◌+ℤ◌
infixl 20 ◌-ℤ◌
unfoldable pub ◌+ℤ◌ : ℤ → ℤ → ℤ
pos a +ℤ pos b = pos (a + b)
pos a +ℤ negsuc b = difference a (suc b)
negsuc a +ℤ pos b = difference b (suc a)
negsuc a +ℤ negsuc b = negsuc (suc (a + b))

unfoldable pub ◌-ℤ◌ : ℤ → ℤ → ℤ
a -ℤ pos b = a +ℤ neg_of b
a -ℤ negsuc b = a +ℤ pos (suc b)

unfoldable pub times : ℕ → ℤ → ℤ
times n (pos a) = pos (n * a)
times n (negsuc a) = neg_of (n * suc a)
