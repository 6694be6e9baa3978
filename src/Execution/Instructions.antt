-- ===== src/Execution/Instructions.antt =====
-- crates/protocol/onx-execution/src/interpreter.rs: the arms of the match of `step`, by the families of its
-- comments, and the byte of each.
pub mod Stack
pub mod Arithmetic
pub mod Bytes
pub mod Hashes
pub mod Cells
pub mod Control
pub mod Costs
use the_open_network_x.Prelude.{
  ℕ, Bool, true, Option, none, some, List, [], ◌∷◌, ◌==◌, if◌then◌else◌,
}
use the_open_network_x.Primitives.Hash.{Crypto}
use the_open_network_x.Execution.Types.{malformed_cell}
use the_open_network_x.Execution.Machine.{Exec, pure, raise, ◌>>=◌, ◌>>◌}
use the_open_network_x.Execution.Instructions.Stack.{StackOp, stack_instruction}
use the_open_network_x.Execution.Instructions.Arithmetic.{ArithmeticOp, arithmetic_instruction}
use the_open_network_x.Execution.Instructions.Bytes.{BytesOp, bytes_instruction}
use the_open_network_x.Execution.Instructions.Hashes.{CryptoOp, crypto_instruction}
use the_open_network_x.Execution.Instructions.Cells.{CellOp, cell_instruction}
use the_open_network_x.Execution.Instructions.Control.{ControlOp, control_instruction}

pub data Opcode : Type 0 where
  stack_op : StackOp → Opcode
  arithmetic_op : ArithmeticOp → Opcode
  bytes_op : BytesOp → Opcode
  crypto_op : CryptoOp → Opcode
  cell_op : CellOp → Opcode
  control_op : ControlOp → Opcode

abbrev pub opcodes : List (ℕ × Opcode)
opcodes =
    (0x00, stack_op StackOp.nop)
    ∷ (0x01, stack_op StackOp.drop_top)
    ∷ (0x02, stack_op StackOp.dup)
    ∷ (0x03, stack_op StackOp.swap)
    ∷ (0x04, stack_op StackOp.over)
    ∷ (0x05, stack_op StackOp.rot)
    ∷ (0x06, stack_op StackOp.pick)
    ∷ (0x07, stack_op StackOp.roll)
    ∷ (0x08, stack_op StackOp.pushint)
    ∷ (0x09, stack_op StackOp.pushbytes)
    ∷ (0x0a, stack_op StackOp.nip)
    ∷ (0x0b, stack_op StackOp.tuck)
    ∷ (0x0c, stack_op StackOp.blkswap)
    ∷ (0x10, arithmetic_op ArithmeticOp.add)
    ∷ (0x11, arithmetic_op ArithmeticOp.sub)
    ∷ (0x12, arithmetic_op ArithmeticOp.neg)
    ∷ (0x13, arithmetic_op ArithmeticOp.mul)
    ∷ (0x14, arithmetic_op ArithmeticOp.divmod)
    ∷ (0x15, arithmetic_op ArithmeticOp.cmp)
    ∷ (0x16, arithmetic_op ArithmeticOp.iszero)
    ∷ (0x17, arithmetic_op ArithmeticOp.div)
    ∷ (0x18, arithmetic_op ArithmeticOp.shl)
    ∷ (0x19, arithmetic_op ArithmeticOp.shr)
    ∷ (0x20, arithmetic_op ArithmeticOp.conv)
    ∷ (0x30, bytes_op BytesOp.bytelen)
    ∷ (0x31, bytes_op BytesOp.concat)
    ∷ (0x32, bytes_op BytesOp.subbytes)
    ∷ (0x33, bytes_op BytesOp.byteeq)
    ∷ (0x40, cell_op CellOp.newc)
    ∷ (0x41, cell_op CellOp.endc)
    ∷ (0x42, cell_op CellOp.stbits)
    ∷ (0x43, cell_op CellOp.stref)
    ∷ (0x44, cell_op CellOp.stbytes)
    ∷ (0x45, cell_op CellOp.ctos)
    ∷ (0x46, cell_op CellOp.ldu)
    ∷ (0x47, cell_op CellOp.ldi)
    ∷ (0x48, cell_op CellOp.ldref)
    ∷ (0x49, cell_op CellOp.isexotic)
    ∷ (0x4a, cell_op CellOp.sempty)
    ∷ (0x4b, cell_op CellOp.sbits)
    ∷ (0x4c, cell_op CellOp.srefs)
    ∷ (0x60, crypto_op CryptoOp.hashbytes)
    ∷ (0x61, crypto_op CryptoOp.hashcell)
    ∷ (0x62, crypto_op CryptoOp.chksignu)
    ∷ (0x70, control_op ControlOp.jmp)
    ∷ (0x71, control_op ControlOp.call)
    ∷ (0x72, control_op ControlOp.ret)
    ∷ (0x73, control_op ControlOp.jmpif)
    ∷ (0x74, control_op ControlOp.jmpifnot)
    ∷ (0x75, control_op ControlOp.callif)
    ∷ (0x76, control_op ControlOp.callifnot)
    ∷ (0x77, control_op ControlOp.throw)
    ∷ (0x78, control_op ControlOp.ifelse)
    ∷ (0x79, control_op ControlOp.ifret)
    ∷ (0x7a, control_op ControlOp.repeat)
    ∷ (0x7b, control_op ControlOp.until)
    ∷ []

abbrev pub find_opcode : ℕ → List (ℕ × Opcode) → Option Opcode
find_opcode byte [] = none
find_opcode byte ((code, op) ∷ rest) = if byte == code then some op else find_opcode byte rest

-- The arm of a byte; every other byte has the last arm.
unfoldable pub decode : ℕ → Option Opcode
decode byte = find_opcode byte opcodes

module _ (crypto : Crypto) where
  -- Whether the execution goes on.
  unfoldable pub instruction : Opcode → Exec Bool
  instruction (stack_op op) = do stack_instruction op; pure true
  instruction (arithmetic_op op) = do arithmetic_instruction op; pure true
  instruction (bytes_op op) = do bytes_instruction op; pure true
  instruction (crypto_op op) = do crypto_instruction crypto op; pure true
  instruction (cell_op op) = do cell_instruction crypto op; pure true
  instruction (control_op op) = control_instruction op

  unfoldable pub execute : Option Opcode → Exec Bool
  execute none = raise malformed_cell
  execute (some op) = instruction op
