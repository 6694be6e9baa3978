-- ===== src/Execution/Instructions/Cells.antt =====
-- crates/protocol/onx-execution/src/interpreter.rs, the arms 0x40 to 0x4C: cells, slices and builders.
use the_open_network_x.Prelude.{
  ℕ, ◌+◌, false, not, ◌&&◌, none, some, List, [], ◌∷◌, ◌++◌, map, get_elem?, length, map_err, ltb,
  ◌==◌,
}
use the_open_network_x.Prelude.Int.{pos}
use the_open_network_x.Primitives.Error.{Bytes}
use the_open_network_x.Primitives.Hash.{Crypto}
use the_open_network_x.StateModel.Cell.{Cell, new_cell, cell_hash}
use the_open_network_x.Execution.Types.{
  slice_new, default_builder, remaining_bits, remaining_refs, read_bits, append_bits, integer,
  cell_value, slice_value, builder_value, malformed_cell, absent_node,
}
use the_open_network_x.Execution.Machine.{
  Exec, ◌>>=◌, ◌>>◌, from_option, from_result, check, consume_gas, pop_integer, pop_bytes, pop_cell,
  pop_slice, pop_builder, push, read_uint8, read_uint16,
}
use the_open_network_x.Execution.Instructions.Stack.{div_ceil}
use the_open_network_x.Execution.Instructions.Arithmetic.{push_i128}
use the_open_network_x.Execution.Instructions.Bytes.{flag}

pub data CellOp : Type 0 where
  newc endc stbits stref stbytes ctos ldu ldi ldref isexotic sempty sbits srefs : CellOp

-- The child of a slice at its offset, or a cell without data that refers to it.
abbrev pub child_or_reference : List Cell → Bytes → ℕ → Cell
child_or_reference children hash i = elim (get_elem? children i) [
  | some child ↦ child
  | none ↦ record { data_bytes = []; cell_refs = hash ∷ []; is_special = false }
]

-- Reads a width from the code and that many bits from a slice.
unfoldable pub load_bits : Exec (Unit {0})
load_bits = do
  consume_gas 10
  width ← read_uint16
  slice ← pop_slice
  read ← from_result (read_bits slice width)
  push (slice_value read.0)
  push (integer read.1)

module _ (crypto : Crypto) where
  unfoldable pub cell_instruction : CellOp → Exec (Unit {0})
  cell_instruction CellOp.newc = do consume_gas 10; push (builder_value default_builder)
  cell_instruction CellOp.endc = do
    consume_gas 10
    builder ← pop_builder
    cell ← from_result (
        map_err (λ _. malformed_cell)
          (new_cell builder.data_bytes (map (cell_hash crypto) builder.references)))
    push (cell_value cell)
  cell_instruction CellOp.stbits = do
    consume_gas 10
    width ← read_uint16
    signed ← read_uint8
    val_bytes ← pop_integer
    builder ← pop_builder
    appended ← from_result (append_bits builder val_bytes width)
    push (builder_value appended)
  cell_instruction CellOp.stref = do
    consume_gas 10
    cell ← pop_cell
    builder ← pop_builder
    check (ltb (length builder.references) 4) malformed_cell
    push (builder_value (record builder { references = builder.references ++ cell ∷ [] }))
  cell_instruction CellOp.stbytes = do
    bytes ← pop_bytes
    consume_gas (10 + div_ceil (length bytes))
    builder ← pop_builder
    check (not (ltb 128 (length builder.data_bytes + length bytes))) malformed_cell
    push (builder_value (record builder { data_bytes = builder.data_bytes ++ bytes }))
  cell_instruction CellOp.ctos = do
    consume_gas 10
    cell ← pop_cell
    check (not cell.is_special) absent_node
    push (slice_value (slice_new cell))
  cell_instruction CellOp.ldu = load_bits
  cell_instruction CellOp.ldi = load_bits
  cell_instruction CellOp.ldref = do
    consume_gas 10
    slice ← pop_slice
    hash ← from_option (get_elem? slice.cell.cell_refs slice.ref_offset) malformed_cell
    let child = child_or_reference slice.child_cells hash slice.ref_offset
    push (slice_value (record slice { ref_offset = slice.ref_offset + 1 }))
    push (cell_value child)
  cell_instruction CellOp.isexotic = do
    consume_gas 10
    cell ← pop_cell
    push_i128 (flag cell.is_special)
  cell_instruction CellOp.sempty = do
    consume_gas 1
    slice ← pop_slice
    push_i128 (flag (remaining_bits slice == 0 && remaining_refs slice == 0))
  cell_instruction CellOp.sbits = do
    consume_gas 1
    slice ← pop_slice
    push_i128 (pos (remaining_bits slice))
  cell_instruction CellOp.srefs = do
    consume_gas 1
    slice ← pop_slice
    push_i128 (pos (remaining_refs slice))
