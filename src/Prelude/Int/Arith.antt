-- ===== src/Prelude/Int/Arith.antt =====
-- Arithmetic of signed integers as the operators of a machine type compute it before they test the range.
use the_open_network_x.Prelude.{
  ℕ, zero, suc, ◌+◌, ◌-◌, ◌*◌, ◌/◌, ◌%◌, ◌^◌, Bool, true, false, Option, none, some, ltb,
  if◌then◌else◌,
}
use the_open_network_x.Prelude.Int.{ℤ, pos, negsuc}

-- The value is one of the 2 * half of a signed type.
abbrev pub fits : ℕ → ℤ → Bool
fits half (pos n) = ltb n half
fits half (negsuc n) = ltb n half

abbrev pub negate : ℤ → ℤ
negate (pos zero) = pos zero
negate (pos (suc n)) = negsuc n
negate (negsuc n) = pos (suc n)

-- The difference of two naturals.
abbrev pub minus : ℕ → ℕ → ℤ
minus m n = if ltb m n then negsuc (n - m - 1) else pos (m - n)

infixl 60 ◌+ℤ◌ ◌-ℤ◌
abbrev pub ◌+ℤ◌ : ℤ → ℤ → ℤ
pos a +ℤ pos b = pos (a + b)
pos a +ℤ negsuc b = minus a (suc b)
negsuc a +ℤ pos b = minus b (suc a)
negsuc a +ℤ negsuc b = negsuc (suc (a + b))

abbrev pub ◌-ℤ◌ : ℤ → ℤ → ℤ
a -ℤ b = a +ℤ negate b

abbrev pub magnitude : ℤ → ℕ
magnitude (pos n) = n
magnitude (negsuc n) = suc n

abbrev pub is_negative : ℤ → Bool
is_negative (pos n) = false
is_negative (negsuc n) = true

-- The value of a magnitude with the sign of a product or a quotient of two integers.
abbrev pub with_sign : ℤ → ℤ → ℕ → ℤ
with_sign (pos a) (pos b) m = pos m
with_sign (pos a) (negsuc b) m = negate (pos m)
with_sign (negsuc a) (pos b) m = negate (pos m)
with_sign (negsuc a) (negsuc b) m = pos m

infixl 70 ◌*ℤ◌
abbrev pub ◌*ℤ◌ : ℤ → ℤ → ℤ
a *ℤ b = with_sign a b (magnitude a * magnitude b)

-- `/` and `%` of a divisor that is not zero: the quotient is cut off towards zero, and the rest has the sign of
-- the dividend.
abbrev pub quotient : ℤ → ℤ → ℤ
quotient a b = with_sign a b (magnitude a / magnitude b)

abbrev pub remainder : ℤ → ℤ → ℤ
remainder (pos n) b = pos (n % magnitude b)
remainder (negsuc n) b = negate (pos (suc n % magnitude b))

-- `rem_euclid` of a positive modulus.
abbrev pub rem_euclid : ℤ → ℕ → ℤ
rem_euclid (pos n) m = pos (n % m)
rem_euclid (negsuc n) m = pos (m - 1 - n % m)

-- `>>`, which rounds towards minus infinity.
abbrev pub shift_right : ℤ → ℕ → ℤ
shift_right (pos n) k = pos (n / 2 ^ k)
shift_right (negsuc n) k = negsuc (n / 2 ^ k)

-- `checked_add` and the like: none where the value leaves the type.
abbrev pub checked : ℕ → ℤ → Option ℤ
checked half z = if fits half z then some z else none
