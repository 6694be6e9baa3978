-- ===== src/Channels/Merkle.antt =====
-- crates/protocol/onx-payment-channels/src/lib.rs: `verify_merkle_proof` of the arbiter, which runs CTOS and RET on
-- the cell of the proof.
use the_open_network_x.Prelude.{
  ◌+◌, ◌*◌, ◌≡◌, refl, Bool, true, false, Option, none, some, [], ◌∷◌, Result, ok, err, ◌>>=◌,
  map_err, if◌then◌else◌,
}
use the_open_network_x.Primitives.Hash.{Crypto, zeros}
use the_open_network_x.DataStructures.Address.{FullAddress, basic}
use the_open_network_x.DataStructures.Message.{Message, MessageType}
use the_open_network_x.StateModel.Cell.{Cell, new_with_special, new_cell}
use the_open_network_x.Execution.Types.{
  ExecutionContext, cell_value, slice_new, take_return, success, exception,
}
use the_open_network_x.Execution.Machine.{
  Interpreter, pure, raise, check, consume_gas, pop, push, pop_cell, code_byte, read_uint8,
  return_to_control_register,
}
use the_open_network_x.Execution.Machine
use the_open_network_x.Execution.Instructions.{decode, instruction, execute}
use the_open_network_x.Execution.Instructions.Cells.{cell_instruction}
use the_open_network_x.Execution.Instructions.Control.{return_normally, control_instruction}
use the_open_network_x.Execution.Interpreter.{
  Ending, returned, aborted, handle_exception, fetch, step, run,
}
use the_open_network_x.Channels.State.{ChannelError, invalid_proof}

abbrev dummy_addr : FullAddress
dummy_addr = record { workchain_id = basic; account_id = zeros 32 }

abbrev dummy_msg : Message
dummy_msg = record {
  msg_type = MessageType.internal;
  src_address = dummy_addr;
  dest_address = dummy_addr;
  amount_nanos = 0;
  extra_currencies = [];
  created_lt = 0;
  body_cell_hash = zeros 32;
}

abbrev proof_context : ExecutionContext
proof_context = record { gen_utime = 0; start_lt = 0; end_lt = 100; gas_limit = 1000 }

-- The interpreter with the code and the proof on its stack.
unfoldable pub proof_interpreter : Cell → Result ChannelError Interpreter
proof_interpreter proof_cell = do
  code ← map_err (λ _. invalid_proof) (new_cell (0x45 ∷ 0x72 ∷ []) [])
  empty_cell ← map_err (λ _. invalid_proof) (new_cell [] [])
  ok (record (Machine.new code empty_cell dummy_msg proof_context) {
    stack = cell_value proof_cell ∷ [];
  })

-- The verdict on a run, if it returns.
abbrev pub verdict : Option (Ending × Interpreter) → Option (Result ChannelError (Unit {0}))
verdict (some (returned (success contract_data messages gas), last)) = some (ok tt)
verdict (some (returned (exception kind gas), last)) = some (err invalid_proof)
verdict (some (aborted, last)) = none
verdict none = none

abbrev pub judge :
    Crypto → Result ChannelError Interpreter → Option (Result ChannelError (Unit {0}))
judge crypto (err failure) = some (err failure)
judge crypto (ok interpreter) = verdict (run crypto (2 * 1000 + 1) interpreter)

-- None where the call panics. The rounds are those of the gas limit.
unfoldable pub verify_merkle_proof : Crypto → Cell → Option (Result ChannelError (Unit {0}))
verify_merkle_proof crypto proof_cell = judge crypto (proof_interpreter proof_cell)

abbrev flagged : Cell → Bool → Cell
flagged cell special = record cell { is_special = special }

verify_flagged :
    (crypto : Crypto) (cell : Cell) (special : Bool)
    → verify_merkle_proof crypto (flagged cell special)
      ≡ some (if special then err invalid_proof else ok tt)
unfolding verify_merkle_proof proof_interpreter new_cell new_with_special Machine.new run step fetch
    read_uint8 code_byte decode execute instruction cell_instruction control_instruction consume_gas
    pop_cell pop push check slice_new return_normally return_to_control_register take_return
    handle_exception pure raise Machine.◌>>=◌
verify_flagged crypto cell true = refl
verify_flagged crypto cell false = refl

-- The check of a conditional proof always returns, and looks at one flag of its cell: every cell that is not special
-- passes, whatever its data and references, and every special one is an invalid proof.
pub verify_merkle_proof_lem :
    (crypto : Crypto) (proof_cell : Cell)
    → verify_merkle_proof crypto proof_cell
      ≡ some (if proof_cell.is_special then err invalid_proof else ok tt)
verify_merkle_proof_lem crypto proof_cell = verify_flagged crypto proof_cell proof_cell.is_special
