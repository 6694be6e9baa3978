-- ===== src/Execution/Instructions/Costs/Control.antt =====
-- What the control instructions cost: a call pays for the return that it opens.
use the_open_network_x.Prelude.{
  ℕ, ◌+◌, ◌*◌, ◌≤◌, refl, Option, none, some, List, [], ◌∷◌, length, arith,
}
use the_open_network_x.Primitives.Hash.{Crypto}
use the_open_network_x.StateModel.Cell.{Cell}
use the_open_network_x.Execution.Types.{Continuation, ControlRegisters, malformed_cell, take_return}
use the_open_network_x.Execution.Machine.{
  Interpreter, Exec, enter, jump_to, return_to_control_register,
}
use the_open_network_x.Execution.Machine.Costs.{
  IsWithin, IsAfter, Costs, Costs-pure, Costs-if, Costs-raise, Costs-weaken, bind_free, bind_owing,
  bind_owed, bind_debt, bind_paid,
}
use the_open_network_x.Execution.Machine.Costs.Calls.{
  free_rules, cost_rules, Costs-read_uint8, charge_4,
}
use the_open_network_x.Execution.Instructions.Control.{
  ControlOp, pop_is_zero, code_ref, enter_code, here, push_call, jump, call_ref, caller_of, tail_of,
  leave, return_normally, go_on, control_instruction,
}
use the_open_network_x.Execution.Instructions.{
  Opcode, stack_op, arithmetic_op, bytes_op, crypto_op, cell_op, control_op, instruction, execute,
}
use the_open_network_x.Execution.Instructions.Costs.{
  Costs-pop_i128, Costs-stack_instruction, Costs-arithmetic_instruction, Costs-bytes_instruction,
  Costs-crypto_instruction, Costs-cell_instruction,
}

-- A change of the place in the code, of the calls and of the return register.
pub IsAfter-place :
    (s : Interpreter) (code : Cell) (pc : ℕ) (calls : List Continuation) (c0 : Option Continuation)
    → IsWithin s
    → IsAfter s (record s {
      current_code = code;
      pc_bits = pc;
      call_stack = calls;
      control_registers = record s.control_registers { c0 = c0 };
    })
IsAfter-place s code pc calls c0 h = record {
  within = record { gas_fits = h.gas_fits; limit_fits = h.limit_fits; stack_fits = h.stack_fits };
  limit_same = refl;
  gas_grows = omega arith;
  handler_same = refl;
  data_same = refl;
  messages_same = refl;
}

Costs-pop_is_zero : Costs 0 0 pop_is_zero
unfolding pop_is_zero
Costs-pop_is_zero = search (free_rules, Costs-pop_i128)

Costs-code_ref : (i : ℕ) → Costs 0 0 (code_ref i)
unfolding code_ref
Costs-code_ref i = search free_rules

Costs-enter_code : (code : Cell) → Costs 0 0 (enter_code code)
unfolding enter_code
Costs-enter_code code = record {
  after = λ s h. IsAfter-place s code 0 s.call_stack s.control_registers.c0 h;
  gain = λ s h r. omega arith;
}

Costs-push_call : Costs 0 1 push_call
unfolding push_call
Costs-push_call = record {
  after = λ s h. IsAfter-place s s.current_code s.pc_bits (here s ∷ s.call_stack) (some (here s)) h;
  gain = λ s h r. omega arith;
}

Costs-jump : (i : ℕ) → Costs 0 0 (jump i)
unfolding jump
Costs-jump i = search (free_rules, Costs-code_ref, Costs-enter_code)

Costs-call_ref : (i : ℕ) → Costs 0 1 (call_ref i)
unfolding call_ref
Costs-call_ref i = search (bind_owed, bind_debt, Costs-code_ref, Costs-push_call, Costs-enter_code)

length-tail_of : (calls : List Continuation) → length (tail_of calls) ≤ length calls
length-tail_of [] = omega arith
length-tail_of (c ∷ calls) = omega arith

-- The registers without the continuation that is taken.
abbrev taken : Interpreter → ControlRegisters
taken s = record s.control_registers { c0 = none }

leave-IsAfter :
    (c0 : Option Continuation) (s : Interpreter)
    → IsWithin s
    → IsAfter s (leave (enter (c0, taken s) s)).1
unfolding jump_to
leave-IsAfter none s h = IsAfter-place s s.current_code s.pc_bits s.call_stack none h
leave-IsAfter (some c) s h =
    let calls = tail_of s.call_stack in IsAfter-place s c.code c.pc_bits calls (caller_of calls) h

leave_gain :
    (c0 : Option Continuation) (s : Interpreter)
    → length (leave (enter (c0, taken s) s)).1.call_stack + 2 * s.gas_used
      ≤ length s.call_stack + 2 * (leave (enter (c0, taken s) s)).1.gas_used
unfolding jump_to
leave_gain none s = omega arith
leave_gain (some c) s = omega (arith, length-tail_of s.call_stack)

Costs-return_normally : Costs 0 0 return_normally
unfolding return_normally return_to_control_register take_return
Costs-return_normally = record {
  after = λ s h. leave-IsAfter s.control_registers.c0 s h;
  gain = λ s h r. let g = leave_gain s.control_registers.c0 s in omega (arith, g);
}

Costs-go_on : (m : Exec (Unit {0})) → Costs 0 0 m → Costs 0 0 (go_on m)
unfolding go_on
Costs-go_on m free = search (bind_free, Costs-pure)

Costs-go_on_owing : (m : Exec (Unit {0})) → Costs 0 1 m → Costs 0 1 (go_on m)
unfolding go_on
Costs-go_on_owing m owing = search (bind_debt, Costs-pure)

Costs-owing : {A : Type 0} (m : Exec A) → Costs 0 0 m → Costs 0 1 m
Costs-owing m = Costs-weaken 0 0 0 1 m (omega arith)

ruleset control_rules =
    (cost_rules, Costs-pop_is_zero, Costs-jump, Costs-return_normally, Costs-go_on)

ruleset call_rules = (
  bind_owing, bind_owed, charge_4, Costs-read_uint8, Costs-pop_is_zero, Costs-if, Costs-call_ref,
  Costs-go_on_owing, Costs-owing, Costs-pure,
)

Costs-control_instruction : (op : ControlOp) → Costs 1 0 (control_instruction op)
unfolding control_instruction
Costs-control_instruction ControlOp.jmp = search control_rules depth 8
Costs-control_instruction ControlOp.call = search call_rules depth 8
Costs-control_instruction ControlOp.ret = search control_rules depth 8
Costs-control_instruction ControlOp.jmpif = search control_rules depth 8
Costs-control_instruction ControlOp.jmpifnot = search control_rules depth 8
Costs-control_instruction ControlOp.callif = search call_rules depth 8
Costs-control_instruction ControlOp.callifnot = search call_rules depth 8
Costs-control_instruction ControlOp.throw = search control_rules depth 8
Costs-control_instruction ControlOp.ifelse = search control_rules depth 8
Costs-control_instruction ControlOp.ifret = search control_rules depth 8
Costs-control_instruction ControlOp.repeat = search control_rules depth 8
Costs-control_instruction ControlOp.until = search control_rules depth 8

module _ (crypto : Crypto) where
  -- Every instruction costs gas, and opens at most the call that it has paid for.
  pub Costs-instruction : (op : Opcode) → Costs 1 0 (instruction crypto op)
  unfolding instruction
  Costs-instruction (stack_op op) = search (bind_paid, Costs-stack_instruction, Costs-pure)
  Costs-instruction (arithmetic_op op) =
      search (bind_paid, Costs-arithmetic_instruction, Costs-pure)
  Costs-instruction (bytes_op op) = search (bind_paid, Costs-bytes_instruction, Costs-pure)
  Costs-instruction (crypto_op op) = search (bind_paid, Costs-crypto_instruction, Costs-pure)
  Costs-instruction (cell_op op) = search (bind_paid, Costs-cell_instruction, Costs-pure)
  Costs-instruction (control_op op) = Costs-control_instruction op

  pub Costs-execute : (op : Option Opcode) → Costs 1 0 (execute crypto op)
  unfolding execute
  Costs-execute none = Costs-raise 1 0 malformed_cell
  Costs-execute (some op) = Costs-instruction op
