-- ===== src/Execution/Instructions/Control.antt =====
-- crates/protocol/onx-execution/src/interpreter.rs, the arms 0x70 to 0x7B: jumps, calls, returns and exceptions.
use the_open_network_x.Prelude.{
  ℕ, Bool, true, false, Option, none, some, List, [], ◌∷◌, get_elem?, ◌==◌, if◌then◌else◌,
}
use the_open_network_x.Prelude.Ord.{same}
use the_open_network_x.Prelude.Int.{pos, int_ord}
use the_open_network_x.StateModel.Cell.{Cell}
use the_open_network_x.Execution.Types.{
  ExceptionKind, integer_overflow, absent_node, malformed_cell, type_mismatch, Continuation,
}
use the_open_network_x.Execution.Machine.{
  Interpreter, Exec, Outcome, done, ◌>>=◌, ◌>>◌, pure, raise, from_option, gets, consume_gas,
  read_uint8, as_i8, jump_relative, return_to_control_register,
}
use the_open_network_x.Execution.Instructions.Arithmetic.{pop_i128}

pub data ControlOp : Type 0 where
  jmp call ret jmpif jmpifnot callif callifnot throw ifelse ifret repeat until : ControlOp

-- Whether an integer that is popped is zero.
unfoldable pub pop_is_zero : Exec Bool
pop_is_zero = do value ← pop_i128; pure (same value (pos 0))

-- The code of a reference.
unfoldable pub code_ref : ℕ → Exec Cell
code_ref ref_idx = do
  refs ← gets (λ s. s.code_refs)
  from_option (get_elem? refs ref_idx) malformed_cell

unfoldable pub enter_code : Cell → Exec (Unit {0})
enter_code target self = (done tt, record self { current_code = target; pc_bits = 0 })

-- Where the caller is, which is also the continuation of the next return.
abbrev pub here : Interpreter → Continuation
here self = record { code = self.current_code; pc_bits = self.pc_bits }

unfoldable pub push_call : Exec (Unit {0})
push_call self = (
  done tt,
  record self {
    call_stack = here self ∷ self.call_stack;
    control_registers = record self.control_registers { c0 = some (here self) };
  },
)

unfoldable pub jump : ℕ → Exec (Unit {0})
jump ref_idx = do target ← code_ref ref_idx; enter_code target

unfoldable pub call_ref : ℕ → Exec (Unit {0})
call_ref ref_idx = do target ← code_ref ref_idx; push_call; enter_code target

abbrev pub caller_of : List Continuation → Option Continuation
caller_of [] = none
caller_of (continuation ∷ calls) = some continuation

abbrev pub tail_of : List Continuation → List Continuation
tail_of [] = []
tail_of (continuation ∷ calls) = calls

abbrev pub leave : Bool × Interpreter → Outcome Bool × Interpreter
leave (false, self) = (done false, self)
leave (true, self) =
    let calls = tail_of self.call_stack in
    (
      done true,
      record self {
        call_stack = calls;
        control_registers = record self.control_registers { c0 = caller_of calls };
      },
    )

-- A return: without a continuation the execution ends.
unfoldable pub return_normally : Exec Bool
return_normally self = leave (return_to_control_register self false)

-- The exception of a byte.
unfoldable pub thrown : ℕ → ExceptionKind
thrown kind_byte =
    if kind_byte == 0
    then integer_overflow
    else if kind_byte == 1
    then absent_node
    else if kind_byte == 2
    then malformed_cell
    else if kind_byte == 3
    then type_mismatch
    else malformed_cell

unfoldable pub go_on : Exec (Unit {0}) → Exec Bool
go_on m = do m; pure true

unfoldable pub control_instruction : ControlOp → Exec Bool
control_instruction ControlOp.jmp = do consume_gas 4; ref_idx ← read_uint8; go_on (jump ref_idx)
control_instruction ControlOp.call = do
  consume_gas 4
  ref_idx ← read_uint8
  go_on (call_ref ref_idx)
control_instruction ControlOp.jmpif = do
  consume_gas 4
  ref_idx ← read_uint8
  zero_value ← pop_is_zero
  if zero_value then pure true else go_on (jump ref_idx)
control_instruction ControlOp.jmpifnot = do
  consume_gas 4
  ref_idx ← read_uint8
  zero_value ← pop_is_zero
  if zero_value then go_on (jump ref_idx) else pure true
control_instruction ControlOp.callif = do
  consume_gas 4
  ref_idx ← read_uint8
  zero_value ← pop_is_zero
  if zero_value then pure true else go_on (call_ref ref_idx)
control_instruction ControlOp.callifnot = do
  consume_gas 4
  ref_idx ← read_uint8
  zero_value ← pop_is_zero
  if zero_value then go_on (call_ref ref_idx) else pure true
control_instruction ControlOp.ret = do consume_gas 4; return_normally
control_instruction ControlOp.throw = do
  consume_gas 4
  kind_byte ← read_uint8
  raise (thrown kind_byte)
control_instruction ControlOp.ifelse = do
  consume_gas 4
  true_offset ← read_uint8
  false_offset ← read_uint8
  zero_value ← pop_is_zero
  go_on (jump_relative (as_i8 (if zero_value then false_offset else true_offset)))
control_instruction ControlOp.ifret = do
  consume_gas 4
  zero_value ← pop_is_zero
  if zero_value then pure true else return_normally
control_instruction ControlOp.repeat = do
  consume_gas 4
  count ← read_uint8
  offset ← read_uint8
  if count == 0 then pure true else go_on (jump_relative (as_i8 offset))
control_instruction ControlOp.until = do
  consume_gas 4
  offset ← read_uint8
  zero_value ← pop_is_zero
  if zero_value then go_on (jump_relative (as_i8 offset)) else pure true
