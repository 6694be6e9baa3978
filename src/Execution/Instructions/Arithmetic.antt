-- ===== src/Execution/Instructions/Arithmetic.antt =====
-- crates/protocol/onx-execution/src/interpreter.rs, the arms 0x10 to 0x20: arithmetic on `i128`.
use Prim.Native.Nat.Ordering.{lt, eq, gt}
use the_open_network_x.Prelude.{
  ℕ, ◌-◌, ◌*◌, ◌%◌, ◌^◌, not, ◌&&◌, ◌||◌, Option, none, some, ltb, ◌==◌, if◌then◌else◌,
}
use the_open_network_x.Prelude.Ord.{same, bytes_ord}
use the_open_network_x.Prelude.Int.{ℤ, pos, negsuc, pattern_of, of_pattern, cmp_int, int_ord}
use the_open_network_x.Prelude.Int.Arith.{
  negate, ◌+ℤ◌, ◌-ℤ◌, ◌*ℤ◌, is_negative, quotient, remainder, rem_euclid, shift_right, checked,
}
use the_open_network_x.Primitives.Hash.{zeros}
use the_open_network_x.Execution.Types.{
  integer, i128_half, from_i128, to_i128, malformed_cell, integer_overflow,
}
use the_open_network_x.Execution.Machine.{
  Exec, ◌>>=◌, ◌>>◌, pure, raise, panic, from_option, check, consume_gas, pop_integer, push,
  read_uint8, read_uint16,
}

pub data ArithmeticOp : Type 0 where
  add sub neg mul divmod cmp iszero div shl shr conv : ArithmeticOp

unfoldable pub pop_i128 : Exec ℤ
pop_i128 = do bytes ← pop_integer; pure (to_i128 bytes)

unfoldable pub push_i128 : ℤ → Exec (Unit {0})
push_i128 value = push (from_i128 value)

-- `checked_...` with `ok_or(IntegerOverflow)`
unfoldable pub within_i128 : ℤ → Exec ℤ
within_i128 value = from_option (checked i128_half value) integer_overflow

-- The gas, the width and the flavor, which the baseline family reads and tests but does not use.
unfoldable pub arithmetic_head : ℕ → Exec (Unit {0})
arithmetic_head gas = do
  consume_gas gas
  width ← read_uint16
  flavor ← read_uint8
  check (not (width == 0 || ltb 256 width)) malformed_cell

-- `a / b` and `a % b`, which panic when the quotient leaves the type.
unfoldable pub push_both : Option ℤ → ℤ → Exec (Unit {0})
push_both none r = panic
push_both (some q) r = do push_i128 q; push_i128 r

unfoldable pub push_divmod : ℤ → ℤ → Exec (Unit {0})
push_divmod a b = push_both (checked i128_half (quotient a b)) (remainder a b)

abbrev pub sign_of : ℤ → ℤ → ℤ
sign_of a b = elim (cmp_int a b) [ lt ↦ negsuc 0 | eq ↦ pos 0 | gt ↦ pos 1 ]

-- The operands of the extended family: the first is the width, the second the flavor.
unfoldable pub extended_head : ℕ → Exec (ℕ × ℕ)
extended_head gas = do
  consume_gas gas
  width ← read_uint16
  flavor ← read_uint8
  check (not (width == 0 || (ltb 128 width || ltb 2 flavor))) malformed_cell
  pure (width, flavor)

-- `1i128.checked_shl(width - 1)`, which keeps the low 128 bits; the width is from 1 to 128.
abbrev pub limit_of : ℕ → ℤ
limit_of width = of_pattern i128_half (2 ^ (width - 1))

-- The test of the flavor and what is pushed. In a build without overflow checks the negation of the least value
-- is that value.
unfoldable pub finish_extended : ℕ → ℕ → ℤ → Exec (Unit {0})
finish_extended width flavor result =
    if flavor == 0
    then (do
      check (not (is_negative result)) integer_overflow
      modulus ← within_i128 (limit_of width *ℤ pos 2)
      check (is_negative (result -ℤ modulus)) integer_overflow
      push_i128 result)
    else if flavor == 1
    then (do
      let low = of_pattern i128_half (pattern_of i128_half (negate (limit_of width)) % 2 ^ 128)
      check (not (is_negative (result -ℤ low)) && is_negative (result -ℤ limit_of width))
          integer_overflow
      push_i128 result)
    else (do
      modulus ← within_i128 (limit_of width *ℤ pos 2)
      push_i128 (rem_euclid result (pattern_of i128_half modulus)))

-- The shift amount lies from zero to below the width.
unfoldable pub shift_amount : ℕ → ℤ → Exec ℕ
shift_amount width (pos b) = do check (ltb b width) integer_overflow; pure b
shift_amount width (negsuc b) = raise integer_overflow

unfoldable pub arithmetic_instruction : ArithmeticOp → Exec (Unit {0})
arithmetic_instruction ArithmeticOp.add = do
  arithmetic_head 4
  b ← pop_i128
  a ← pop_i128
  result ← within_i128 (a +ℤ b)
  push_i128 result
arithmetic_instruction ArithmeticOp.sub = do
  arithmetic_head 4
  b ← pop_i128
  a ← pop_i128
  result ← within_i128 (a -ℤ b)
  push_i128 result
arithmetic_instruction ArithmeticOp.neg = do
  arithmetic_head 4
  a ← pop_i128
  result ← within_i128 (negate a)
  push_i128 result
arithmetic_instruction ArithmeticOp.mul = do
  arithmetic_head 8
  b ← pop_i128
  a ← pop_i128
  result ← within_i128 (a *ℤ b)
  push_i128 result
arithmetic_instruction ArithmeticOp.divmod = do
  arithmetic_head 8
  b ← pop_i128
  a ← pop_i128
  check (not (same b (pos 0))) integer_overflow
  push_divmod a b
arithmetic_instruction ArithmeticOp.cmp = do
  arithmetic_head 4
  b ← pop_i128
  a ← pop_i128
  push_i128 (sign_of a b)
arithmetic_instruction ArithmeticOp.iszero = do
  consume_gas 4
  a ← pop_integer
  push_i128 (if same a (zeros 32) then pos 1 else pos 0)
arithmetic_instruction ArithmeticOp.div = do
  head ← extended_head 8
  b ← pop_i128
  a ← pop_i128
  check (not (same b (pos 0))) integer_overflow
  result ← within_i128 (quotient a b)
  finish_extended head.0 head.1 result
arithmetic_instruction ArithmeticOp.shl = do
  head ← extended_head 4
  b ← pop_i128
  a ← pop_i128
  amount ← shift_amount head.0 b
  finish_extended head.0 head.1
      (of_pattern i128_half (pattern_of i128_half a * 2 ^ amount % 2 ^ 128))
arithmetic_instruction ArithmeticOp.shr = do
  head ← extended_head 4
  b ← pop_i128
  a ← pop_i128
  amount ← shift_amount head.0 b
  finish_extended head.0 head.1 (shift_right a amount)
arithmetic_instruction ArithmeticOp.conv = do
  consume_gas 4
  width ← read_uint16
  signed ← read_uint8
  a ← pop_integer
  push (integer a)
