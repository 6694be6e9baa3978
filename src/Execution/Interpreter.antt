-- ===== src/Execution/Interpreter.antt =====
-- crates/protocol/onx-execution/src/interpreter.rs: the step and the loop of the interpreter.
pub mod Termination
pub mod Handler
use the_open_network_x.Prelude.{
  ℕ, zero, suc, Bool, true, false, Option, none, some, List, [], ◌∷◌, leb, if◌then◌else◌,
}
use the_open_network_x.Prelude.Int.{ℤ, pos}
use the_open_network_x.Primitives.Hash.{Crypto}
use the_open_network_x.Execution.Types.{
  ExceptionKind, out_of_gas, integer_overflow, absent_node, malformed_cell, type_mismatch,
  from_i128, Continuation, ExecutionResult, success, exception,
}
use the_open_network_x.Execution.Machine.{
  Interpreter, Exec, Outcome, done, raised, panicked, ◌>>=◌, code_bits, read_uint8, push, jump_to,
}
use the_open_network_x.Execution.Instructions.{decode, execute}

-- At the end of the code: back to the caller, or the end of the execution.
abbrev pub resume : List Continuation → Exec Bool
resume [] self = (done false, self)
resume (caller ∷ calls) self = (done true, jump_to (record self { call_stack = calls }) caller)

-- The code that the handler finds on the stack.
abbrev pub discriminator : ExceptionKind → ℤ
discriminator out_of_gas = pos 0
discriminator integer_overflow = pos 1
discriminator absent_node = pos 2
discriminator malformed_cell = pos 3
discriminator type_mismatch = pos 4

-- How a run ends: it returns its result, or an instruction panics.
pub data Ending : Type 0 where
  returned : ExecutionResult → Ending
  aborted : Ending

-- The state to go on from, or the end.
pub data Next : Type 0 where
  go : Interpreter → Next
  stop : Ending → Interpreter → Next

abbrev pub enter_handler : ExceptionKind → Continuation → Outcome (Unit {0}) × Interpreter → Next
enter_handler kind handler (done pushed, self) = go (jump_to self handler)
enter_handler kind handler (raised failure, self) =
    stop (returned (exception kind self.gas_used)) self
enter_handler kind handler (panicked, self) = stop aborted self

-- An exception goes to the handler in c2, if there is one and the stack has room.
abbrev pub to_handler : ExceptionKind → Interpreter → Option Continuation → Next
to_handler kind self none = stop (returned (exception kind self.gas_used)) self
to_handler kind self (some handler) =
    enter_handler kind handler (push (from_i128 (discriminator kind)) self)

unfoldable pub handle_exception : ExceptionKind → Interpreter → Next
handle_exception kind self = to_handler kind self self.control_registers.c2

abbrev pub next_of : Outcome Bool × Interpreter → Next
next_of (done true, self) = go self
next_of (done false, self) =
    stop (returned (success self.contract_data self.out_messages self.gas_used)) self
next_of (raised kind, self) = handle_exception kind self
next_of (panicked, self) = stop aborted self

module _ (crypto : Crypto) where
  unfoldable pub fetch : Exec Bool
  fetch = do opcode ← read_uint8; execute crypto (decode opcode)

  unfoldable pub step : Exec Bool
  step self = if leb (code_bits self) self.pc_bits then resume self.call_stack self else fetch self

  -- The loop with a number of rounds; none where they are not enough.
  unfoldable pub run : ℕ → Interpreter → Option (Ending × Interpreter)
  run zero self = none
  run (suc rounds) self = elim (next_of (step self)) [
    | go next ↦ run rounds next
    | stop ending last ↦ some (ending, last)
  ]
