-- ===== src/Execution/Interpreter/Handler.antt =====
-- An exception handler can keep a run from ending: an instruction that takes its operand before it charges gas, and
-- fails on the code that the handler finds, is free.
use the_open_network_x.Prelude.{false, some, List, [], ◌∷◌}
use the_open_network_x.Prelude.Int.{pos}
use the_open_network_x.Primitives.Error.{Bytes}
use the_open_network_x.StateModel.Cell.{Cell}
use the_open_network_x.Execution.Types.{StackValue, integer, from_i128, Continuation}
use the_open_network_x.Execution.Machine.{Interpreter}

-- The code whose one instruction is CONCAT.
abbrev pub concat_code : Cell
concat_code = record { data_bytes = 0x31 ∷ []; cell_refs = []; is_special = false }

abbrev pub concat_handler : Continuation
concat_handler = record { code = concat_code; pc_bits = 0 }

-- Any state, at that code and with it as its handler, and an integer on top of its stack.
abbrev pub at_concat : Interpreter → Bytes → List StackValue → Interpreter
at_concat s value rest = record s {
  stack = integer value ∷ rest;
  current_code = concat_code;
  pc_bits = 0;
  control_registers = record s.control_registers { c2 = some concat_handler };
}

-- What the handler finds on the stack.
abbrev mismatch_code : Bytes
mismatch_code = elim (from_i128 (pos 4)) [ integer bytes ↦ bytes | _ ↦ [] ]
