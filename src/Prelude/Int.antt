-- ===== src/Prelude/Int.antt =====
-- Signed machine integers over the native numbers, and their two's-complement patterns.
pub mod Arith
use Prim.Native.Nat.{ℕ, suc, ◌-◌, ◌<◌, ◌+◌, compare}
use Prim.Native.Nat.Ordering.{lt, eq, gt}
use Prim.Native.Nat.{Ordering}
use mathlib.Core.Path.{◌≡◌}
use native.Mathlib.Omega.{arith}
use the_open_network_x.Prelude.Tests.{ltb, if◌then◌else◌}
use the_open_network_x.Prelude.Ord.{Ord}

-- `negsuc n` is -(n + 1).
pub data ℤ : Type 0 where
  pos : ℕ → ℤ
  negsuc : ℕ → ℤ

-- The value fits a signed type of 2 * half patterns.
abbrev pub Fits : ℕ → ℤ → Type 0
Fits half (pos n) = n < half
Fits half (negsuc n) = n < half

-- The unsigned pattern of a signed value, and the value of a pattern, for a type of 2 * half
-- patterns.
abbrev pub pattern_of : ℕ → ℤ → ℕ
pattern_of half (pos n) = n
pattern_of half (negsuc n) = half + half - suc n

abbrev pub of_pattern : ℕ → ℕ → ℤ
of_pattern half p = if ltb p half then pos p else negsuc (half + half - suc p)

pub of_pattern-pattern_of :
    (half : ℕ) (z : ℤ) → Fits half z → of_pattern half (pattern_of half z) ≡ z
of_pattern-pattern_of half (pos n) h = ground arith
of_pattern-pattern_of half (negsuc n) h = ground arith

pub pattern_of-of_pattern : (half p : ℕ) → p < half + half → pattern_of half (of_pattern half p) ≡ p
pattern_of-of_pattern half p h = ground arith

pub pattern_of-lt : (half : ℕ) (z : ℤ) → Fits half z → pattern_of half z < half + half
pattern_of-lt half (pos n) h = omega arith
pattern_of-lt half (negsuc n) h = omega arith

-- The order of signed values.
abbrev pub cmp_int : ℤ → ℤ → Ordering
cmp_int (pos a) (pos b) = compare a b
cmp_int (pos a) (negsuc b) = gt
cmp_int (negsuc a) (pos b) = lt
cmp_int (negsuc a) (negsuc b) = compare b a

pub cmp_int_self : (a : ℤ) → cmp_int a a ≡ eq
cmp_int_self (pos a) = ground arith
cmp_int_self (negsuc a) = ground arith

pub cmp_int-eq : (a b : ℤ) → cmp_int a b ≡ eq → a ≡ b
cmp_int-eq a b h = ground arith

pub cmp_int-gt : (a b : ℤ) → cmp_int a b ≡ gt → cmp_int b a ≡ lt
cmp_int-gt a b h = ground arith

pub cmp_int_trans : (a b c : ℤ) → cmp_int a b ≡ lt → cmp_int b c ≡ lt → cmp_int a c ≡ lt
cmp_int_trans a b c h k = ground arith

instance abbrev pub int_ord : Ord ℤ
int_ord = record {
  cmp = cmp_int;
  cmp_self = cmp_int_self;
  cmp_eq = cmp_int-eq;
  cmp_gt = cmp_int-gt;
  cmp_trans = cmp_int_trans;
}
