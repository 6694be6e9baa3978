-- ===== src/Execution/Instructions/Bytes.antt =====
-- crates/protocol/onx-execution/src/interpreter.rs, the arms 0x30 to 0x33: byte strings.
use the_open_network_x.Prelude.{
  ℕ, ◌+◌, ◌-◌, ◌%◌, ◌^◌, ◌++◌, min, Bool, true, false, take, drop, length, ltb, if◌then◌else◌,
}
use the_open_network_x.Prelude.Ord.{same, bytes_ord}
use the_open_network_x.Prelude.Int.{ℤ, pos, pattern_of}
use the_open_network_x.Primitives.Error.{Bytes}
use the_open_network_x.Execution.Types.{bytes_value, i128_half, malformed_cell}
use the_open_network_x.Execution.Machine.{
  Exec, ◌>>=◌, ◌>>◌, raise, panic, consume_gas, pop_bytes, push,
}
use the_open_network_x.Execution.Instructions.Stack.{div_ceil}
use the_open_network_x.Execution.Instructions.Arithmetic.{pop_i128, push_i128}

pub data BytesOp : Type 0 where
  bytelen concat subbytes byteeq : BytesOp

-- `value as usize`
abbrev pub as_usize : ℤ → ℕ
as_usize value = pattern_of i128_half value % 2 ^ 64

-- The part of a byte string. The sum wraps, as in a build without overflow checks; where it is below the offset, the
-- slice panics.
unfoldable pub push_part : Bytes → ℕ → ℕ → Exec (Unit {0})
push_part bytes offset len =
    let past = (offset + len) % 2 ^ 64 in
    if ltb (length bytes) past
    then raise malformed_cell
    else if ltb past offset
    then panic
    else push (bytes_value (take (past - offset) (drop offset bytes)))

abbrev pub flag : Bool → ℤ
flag true = pos 1
flag false = pos 0

unfoldable pub bytes_instruction : BytesOp → Exec (Unit {0})
bytes_instruction BytesOp.bytelen = do
  consume_gas 1
  bytes ← pop_bytes
  push_i128 (pos (length bytes))
bytes_instruction BytesOp.concat = do
  b ← pop_bytes
  a ← pop_bytes
  consume_gas (4 + div_ceil (length a + length b))
  push (bytes_value (a ++ b))
bytes_instruction BytesOp.subbytes = do
  consume_gas 4
  len ← pop_i128
  offset ← pop_i128
  bytes ← pop_bytes
  push_part bytes (as_usize offset) (as_usize len)
bytes_instruction BytesOp.byteeq = do
  b ← pop_bytes
  a ← pop_bytes
  consume_gas (1 + div_ceil (min (length a) (length b)))
  push_i128 (flag (same a b))
