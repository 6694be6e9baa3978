-- ===== src/Execution/Machine.antt =====
-- crates/protocol/onx-execution/src/interpreter.rs: the state of the interpreter and the calls that its
-- instructions are made of. The stack and the call stack have their tops in front. Integer division and slices
-- panic in Rust where the source does not guard them: that is an outcome of its own.
pub mod Costs
use the_open_network_x.Prelude.{
  ℕ, zero, suc, ◌+◌, ◌-◌, ◌*◌, ◌/◌, ◌%◌, ◌^◌, ◌++◌, Bool, true, false, Option, none, some, List, [],
  ◌∷◌, length, Result, ok, err, ltb, leb, ◌==◌, if◌then◌else◌,
}
use the_open_network_x.Prelude.Int.{ℤ, pos, negsuc, of_pattern}
use the_open_network_x.Prelude.Int.Arith.{minus}
use the_open_network_x.Prelude.Words.{u64_max, saturating_add}
use the_open_network_x.Primitives.Error.{Bytes}
use the_open_network_x.DataStructures.Message.{Message}
use the_open_network_x.StateModel.Cell.{Cell}
use the_open_network_x.Execution.Types.{
  ExceptionKind, out_of_gas, malformed_cell, type_mismatch, ExecutionContext, Slice, Builder,
  StackValue, integer, bytes_value, cell_value, slice_value, builder_value, byte_or_zero,
  Continuation, ControlRegisters, default_registers, take_return,
}

abbrev pub max_stack_depth : ℕ
max_stack_depth = 1023

pub record Interpreter : Type 0 where
  pub stack : List StackValue
  pub call_stack : List Continuation
  pub current_code : Cell
  pub pc_bits : ℕ
  pub contract_data : Cell
  pub out_messages : List Message
  pub gas_limit : ℕ
  pub gas_used : ℕ
  pub context : ExecutionContext
  pub code_refs : List Cell
  pub control_registers : ControlRegisters

unfoldable pub new : Cell → Cell → Message → ExecutionContext → Interpreter
new code contract_data message context = record {
  stack = [];
  call_stack = [];
  current_code = code;
  pc_bits = 0;
  contract_data = contract_data;
  out_messages = [];
  gas_limit = context.gas_limit;
  gas_used = 0;
  context = context;
  code_refs = [];
  control_registers = default_registers;
}

unfoldable pub set_exception_handler : Interpreter → Continuation → Interpreter
set_exception_handler self continuation = record self {
  control_registers = record self.control_registers { c2 = some continuation };
}

unfoldable pub set_alternative_return : Interpreter → Continuation → Interpreter
set_alternative_return self continuation = record self {
  control_registers = record self.control_registers { c1 = some continuation };
}

unfoldable pub jump_to : Interpreter → Continuation → Interpreter
jump_to self continuation = record self {
  current_code = continuation.code;
  pc_bits = continuation.pc_bits;
}

pub data Outcome {ℓ} (A : Type ℓ) : Type ℓ where
  done : A → Outcome A
  raised : ExceptionKind → Outcome A
  panicked : Outcome A

-- What was changed before an exception stays changed, so the state comes back with every outcome.
abbrev pub Exec {ℓ} : Type ℓ → Type ℓ
Exec A = Interpreter → Outcome A × Interpreter

unfoldable pub pure {ℓ} : {A : Type ℓ} → A → Exec A
pure a self = (done a, self)

unfoldable pub raise {ℓ} : {A : Type ℓ} → ExceptionKind → Exec A
raise kind self = (raised kind, self)

unfoldable pub panic {ℓ} : {A : Type ℓ} → Exec A
panic self = (panicked, self)

abbrev pub continue {ℓ κ} : {A : Type ℓ} {B : Type κ} → Outcome A → (A → Exec B) → Exec B
continue (done a) f self = f a self
continue (raised kind) f self = (raised kind, self)
continue panicked f self = (panicked, self)

infixl 5 ◌>>=◌ ◌>>◌
unfoldable pub ◌>>=◌ {ℓ κ} : {A : Type ℓ} {B : Type κ} → Exec A → (A → Exec B) → Exec B
◌>>=◌ m f self = let r = m self in continue r.0 f r.1

abbrev pub ◌>>◌ {ℓ} : {B : Type ℓ} → Exec (Unit {0}) → Exec B → Exec B
m >> k = m >>= λ _. k

-- `ok_or`, and a test that raises.
unfoldable pub from_option {ℓ} : {A : Type ℓ} → Option A → ExceptionKind → Exec A
unfolding pure raise
from_option none kind = raise kind
from_option (some a) kind = pure a

unfoldable pub from_result {ℓ} : {A : Type ℓ} → Result ExceptionKind A → Exec A
unfolding pure raise
from_result (err kind) = raise kind
from_result (ok a) = pure a

unfoldable pub check : Bool → ExceptionKind → Exec (Unit {0})
unfolding pure raise
check true kind = pure tt
check false kind = raise kind

unfoldable pub gets {ℓ} : {A : Type ℓ} → (Interpreter → A) → Exec A
gets f self = (done (f self), self)

unfoldable pub consume_gas : ℕ → Exec (Unit {0})
consume_gas amount self =
    let new_gas = saturating_add u64_max self.gas_used amount in
    if ltb self.gas_limit new_gas
    then (raised out_of_gas, record self { gas_used = self.gas_limit })
    else (done tt, record self { gas_used = new_gas })

abbrev pub pop_from : List StackValue → Exec StackValue
pop_from [] self = (raised malformed_cell, self)
pop_from (value ∷ stack) self = (done value, record self { stack = stack })

unfoldable pub pop : Exec StackValue
pop self = pop_from self.stack self

unfoldable pub push : StackValue → Exec (Unit {0})
push value self =
    if leb max_stack_depth (length self.stack)
    then (raised malformed_cell, self)
    else (done tt, record self { stack = value ∷ self.stack })

abbrev pub as_integer : StackValue → Exec Bytes
as_integer (integer bytes) = pure bytes
as_integer _ = raise type_mismatch

abbrev pub as_bytes : StackValue → Exec Bytes
as_bytes (bytes_value bytes) = pure bytes
as_bytes _ = raise type_mismatch

abbrev pub as_cell : StackValue → Exec Cell
as_cell (cell_value cell) = pure cell
as_cell _ = raise type_mismatch

abbrev pub as_slice : StackValue → Exec Slice
as_slice (slice_value slice) = pure slice
as_slice _ = raise type_mismatch

abbrev pub as_builder : StackValue → Exec Builder
as_builder (builder_value builder) = pure builder
as_builder _ = raise type_mismatch

unfoldable pub pop_integer : Exec Bytes
pop_integer = pop >>= as_integer

unfoldable pub pop_bytes : Exec Bytes
pop_bytes = pop >>= as_bytes

unfoldable pub pop_cell : Exec Cell
pop_cell = pop >>= as_cell

unfoldable pub pop_slice : Exec Slice
pop_slice = pop >>= as_slice

unfoldable pub pop_builder : Exec Builder
pop_builder = pop >>= as_builder

abbrev pub code_bits : Interpreter → ℕ
code_bits self = length self.current_code.data_bytes * 8

-- The byte at a bit position: `(b1 << rem) | (b2 >> (8 - rem))` cut off at eight bits has no common bits.
unfoldable pub code_byte : Bytes → ℕ → ℕ
code_byte code pc =
    let b1 = byte_or_zero code (pc / 8) in
    let b2 = byte_or_zero code (pc / 8 + 1) in
    if pc % 8 == 0 then b1 else b1 * 2 ^ (pc % 8) % 256 + b2 / 2 ^ (8 - pc % 8)

unfoldable pub read_uint8 : Exec ℕ
read_uint8 self =
    if ltb (code_bits self) (self.pc_bits + 8) then (raised malformed_cell, self) else (
      done (code_byte self.current_code.data_bytes self.pc_bits),
      record self { pc_bits = self.pc_bits + 8 },
    )

unfoldable pub read_uint16 : Exec ℕ
read_uint16 = do high ← read_uint8; low ← read_uint8; pure (high * 256 + low)

unfoldable pub read_bytes_exact : ℕ → Exec Bytes
read_bytes_exact zero = pure []
read_bytes_exact (suc len) = do byte ← read_uint8; rest ← read_bytes_exact len; pure (byte ∷ rest)

-- `byte as i8`
abbrev pub as_i8 : ℕ → ℤ
as_i8 byte = of_pattern 128 byte

-- The position moved by bytes, if it stays within the code.
abbrev pub moved : ℕ → ℤ → Option ℕ
moved pc (pos n) = some (pc + n * 8)
moved pc (negsuc n) = if ltb pc (suc n * 8) then none else some (pc - suc n * 8)

abbrev pub within_code : ℕ → Option ℕ → Option ℕ
within_code bits none = none
within_code bits (some pc) = if leb pc bits then some pc else none

unfoldable pub jump_relative : ℤ → Exec (Unit {0})
jump_relative offset self = elim (within_code (code_bits self) (moved self.pc_bits offset)) [
  | none ↦ (raised malformed_cell, self)
  | some pc ↦ (done tt, record self { pc_bits = pc })
]

-- The continuation of a return is taken and entered, if there is one.
abbrev pub enter : Option Continuation × ControlRegisters → Interpreter → Bool × Interpreter
enter (none, registers) self = (false, record self { control_registers = registers })
enter (some continuation, registers) self =
    (true, jump_to (record self { control_registers = registers }) continuation)

unfoldable pub return_to_control_register : Interpreter → Bool → Bool × Interpreter
return_to_control_register self alternative =
    enter (take_return self.control_registers alternative) self
