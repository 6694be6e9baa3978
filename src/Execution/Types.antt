-- ===== src/Execution/Types.antt =====
-- crates/protocol/onx-execution/src/types.rs and continuation.rs. Bits of a byte string are read from the highest
-- bit of the first byte on.
use the_open_network_x.Prelude.{
  ℕ, zero, suc, ◌+◌, ◌-◌, ◌*◌, ◌/◌, ◌%◌, ◌^◌, ◌++◌, Bool, true, false, Option, none, some, List, [],
  ◌∷◌, get_elem?, drop, length, Result, ok, err, ltb, ◌==◌, if◌then◌else◌,
}
use the_open_network_x.Prelude.Int.{ℤ, pos, negsuc, pattern_of, of_pattern}
use the_open_network_x.Prelude.Bits.{set_byte_bit}
use the_open_network_x.Prelude.Words.{to_be, from_be}
use the_open_network_x.Primitives.Error.{Bytes}
use the_open_network_x.Primitives.Hash.{zeros}
use the_open_network_x.DataStructures.Message.{Message}
use the_open_network_x.StateModel.Cell.{Cell}

pub data ExceptionKind : Type 0 where
  out_of_gas integer_overflow absent_node malformed_cell type_mismatch : ExceptionKind

pub record ExecutionContext : Type 0 where
  pub gen_utime : ℕ
  pub start_lt : ℕ
  pub end_lt : ℕ
  pub gas_limit : ℕ

pub record Slice : Type 0 where
  pub cell : Cell
  pub bit_offset : ℕ
  pub ref_offset : ℕ
  pub child_cells : List Cell

unfoldable pub slice_new : Cell → Slice
slice_new cell = record { cell = cell; bit_offset = 0; ref_offset = 0; child_cells = [] }

unfoldable pub slice_new_with_children : Cell → List Cell → Slice
slice_new_with_children cell child_cells = record {
  cell = cell;
  bit_offset = 0;
  ref_offset = 0;
  child_cells = child_cells;
}

unfoldable pub remaining_bits : Slice → ℕ
remaining_bits self = length self.cell.data_bytes * 8 - self.bit_offset

unfoldable pub remaining_refs : Slice → ℕ
remaining_refs self = length self.cell.cell_refs - self.ref_offset

-- A byte, or zero behind the end.
abbrev pub byte_or_zero : Bytes → ℕ → ℕ
byte_or_zero bytes i = elim (get_elem? bytes i) [ none ↦ 0 | some b ↦ b ]

-- `(bytes[i / 8] >> (7 - i % 8)) & 1`
unfoldable pub bit_of : Bytes → ℕ → ℕ
bit_of bytes i = byte_or_zero bytes (i / 8) / 2 ^ (7 - i % 8) % 2

abbrev pub put_bit : Bytes → ℕ → ℕ → Bytes
put_bit bytes i bit = if bit == 1 then set_byte_bit bytes (i / 8) (7 - i % 8) else bytes

-- The loop of `read_bits` over the bits that are left.
unfoldable pub copy_bits : ℕ → Bytes → ℕ → ℕ → Bytes → Bytes
copy_bits zero source src dest res = res
copy_bits (suc n) source src dest res =
    copy_bits n source (src + 1) (dest + 1) (put_bit res dest (bit_of source src))

unfoldable pub read_bits : Slice → ℕ → Result ExceptionKind (Slice × Bytes)
read_bits self width_bits =
    if ltb (remaining_bits self) width_bits
    then err malformed_cell
    else if ltb 256 width_bits
    then err malformed_cell
    else ok (
      record self { bit_offset = self.bit_offset + width_bits },
      copy_bits width_bits self.cell.data_bytes self.bit_offset (256 - width_bits) (zeros 32),
    )

pub record Builder : Type 0 where
  pub data_bytes : Bytes
  pub current_bit_len : ℕ
  pub references : List Cell

abbrev pub default_builder : Builder
default_builder = record { data_bytes = []; current_bit_len = 0; references = [] }

-- A byte more, where the bit is behind the end.
abbrev pub grow : Bytes → ℕ → Bytes
grow target dest = if ltb (dest / 8) (length target) then target else target ++ 0 ∷ []

-- The loop of `append_bits`. The index is in range: the bits that are written fill the bytes that were grown.
unfoldable pub write_bits : ℕ → Bytes → ℕ → ℕ → Bytes → Bytes
write_bits zero val src dest target = target
write_bits (suc n) val src dest target =
    write_bits n val (src + 1) (dest + 1) (put_bit (grow target dest) dest (bit_of val src))

unfoldable pub append_bits : Builder → Bytes → ℕ → Result ExceptionKind Builder
append_bits self val_bytes width_bits =
    if ltb 256 width_bits
    then err malformed_cell
    else if ltb (128 * 8) (self.current_bit_len + width_bits)
    then err malformed_cell
    else ok (record self {
      data_bytes =
          write_bits width_bits val_bytes (256 - width_bits) self.current_bit_len self.data_bytes;
      current_bit_len = self.current_bit_len + width_bits;
    })

pub data StackValue : Type 0 where
  integer bytes_value : Bytes → StackValue
  cell_value : Cell → StackValue
  slice_value : Slice → StackValue
  builder_value : Builder → StackValue

-- The values of an `i128` on either side of zero.
abbrev pub i128_half : ℕ
i128_half = 2 ^ 127

abbrev pub sign_bytes : ℤ → Bytes
sign_bytes (pos n) = zeros 16
sign_bytes (negsuc n) =
    255 ∷ 255 ∷ 255 ∷ 255 ∷ 255 ∷ 255 ∷ 255 ∷ 255 ∷ 255 ∷ 255 ∷ 255 ∷ 255 ∷ 255 ∷ 255 ∷ 255 ∷ 255
    ∷ []

unfoldable pub from_i128 : ℤ → StackValue
from_i128 val = integer (sign_bytes val ++ to_be 16 (pattern_of i128_half val))

-- The low sixteen bytes of an integer; no other value is asked.
unfoldable pub to_i128 : Bytes → ℤ
to_i128 bytes = of_pattern i128_half (from_be (drop 16 bytes))

pub record Continuation : Type 0 where
  pub code : Cell
  pub pc_bits : ℕ

pub record ControlRegisters : Type 0 where
  pub c0 : Option Continuation
  pub c1 : Option Continuation
  pub c2 : Option Continuation

abbrev pub default_registers : ControlRegisters
default_registers = record { c0 = none; c1 = none; c2 = none }

-- The continuation that is taken, and the registers without it.
unfoldable pub take_return : ControlRegisters → Bool → Option Continuation × ControlRegisters
take_return self false = (self.c0, record self { c0 = none })
take_return self true = (self.c1, record self { c1 = none })

pub data ExecutionResult : Type 0 where
  -- the new data, the messages and the gas used
  success : Cell → List Message → ℕ → ExecutionResult
  exception : ExceptionKind → ℕ → ExecutionResult
