-- ===== src/Execution/Examples.antt =====
-- The dictionary theorems at a dictionary of keys of eight bits, and those of the interpreter at a short code.
use the_open_network_x.Prelude.{
  ◌+◌, ◌*◌, ◌≤◌, ◌≡◌, refl, true, false, none, some, [], ◌∷◌, ok, ◌⊎◌, arith,
}
use the_open_network_x.Prelude.Int.{pos}
use the_open_network_x.Primitives.Hash.{Crypto}
use the_open_network_x.DataStructures.Address.{FullAddress}
use the_open_network_x.DataStructures.Message.{Message, MessageType}
use the_open_network_x.StateModel.Cell.{Cell}
use the_open_network_x.Execution.Dictionary.{
  Dictionary, Key, new_dictionary, bits_from, byte_at, key_bits, set, delete,
}
use the_open_network_x.Execution.Dictionary.Map.{
  IsDictionary, IsMutation, new-IsDictionary, set_lem, delete_lem,
}
use the_open_network_x.Execution.Types.{ExceptionKind, ExecutionContext, success, exception}
use the_open_network_x.Execution.Machine.{Interpreter, new}
use the_open_network_x.Execution.Interpreter.{Ending, returned, aborted, run}
use the_open_network_x.Execution.Interpreter.Termination.{run_terminates}

abbrev identity_hash : Crypto
identity_hash = record {
  sha256 = λ bs. bs;
  is_canonical_key = λ k. true;
  verify_strict = λ k m s. true;
}

abbrev vacant : Dictionary
vacant = record { width = 8; root = none; root_cell = none }

vacant-IsDictionary : IsDictionary identity_hash vacant
unfolding new_dictionary
vacant-IsDictionary = new-IsDictionary identity_hash 8 refl

abbrev value : Cell
value = record { data_bytes = 1 ∷ []; cell_refs = []; is_special = false }

abbrev key_170 : Key
key_170 = true ∷ false ∷ true ∷ false ∷ true ∷ false ∷ true ∷ false ∷ []

key_170-bits : key_bits (170 ∷ []) 8 ≡ ok key_170
unfolding key_bits bits_from byte_at
key_170-bits = refl

set_example :
    IsMutation identity_hash vacant
      (170 ∷ [])
      key_170
      (some value)
      (set identity_hash vacant (170 ∷ []) value)
set_example = set_lem identity_hash vacant (170 ∷ []) key_170 value vacant-IsDictionary key_170-bits

abbrev occupied : Dictionary
occupied = (set identity_hash vacant (170 ∷ []) value).0

-- The dictionary that the first insertion leaves.
occupied-IsDictionary :
    IsDictionary identity_hash occupied × (key_bits (170 ∷ []) occupied.width ≡ ok key_170)
occupied-IsDictionary =
    let first =
      set_lem identity_hash vacant (170 ∷ []) key_170 value vacant-IsDictionary key_170-bits in
    (first.dictionary, rw first.same_width key_170-bits)

delete_example :
    IsMutation identity_hash occupied
      (170 ∷ [])
      key_170
      none
      (delete identity_hash occupied (170 ∷ []))
delete_example =
    delete_lem identity_hash occupied (170 ∷ []) key_170 occupied-IsDictionary.0
      occupied-IsDictionary.1

-- PUSHINT with eight bits missing behind a NOP.
abbrev short_code : Cell
short_code = record { data_bytes = 0x00 ∷ 0x08 ∷ []; cell_refs = []; is_special = false }

abbrev ten_gas : ExecutionContext
ten_gas = record { gen_utime = 0; start_lt = 0; end_lt = 0; gas_limit = 10 }

abbrev party : FullAddress
party = record { workchain_id = pos 0; account_id = [] }

abbrev letter : Message
letter = record {
  msg_type = MessageType.internal;
  src_address = party;
  dest_address = party;
  amount_nanos = 0;
  extra_currencies = [];
  created_lt = 0;
  body_cell_hash = [];
}

run_terminates_example :
    (ending : Ending) × (last : Interpreter) × (run identity_hash
        (2 * 10 + 1)
        (new short_code value letter ten_gas)
      ≡ some (ending, last))
    × (last.gas_used ≤ 10)
    × ((ending ≡ returned (success value [] last.gas_used))
        ⊎ ((kind : ExceptionKind) × (ending ≡ returned (exception kind last.gas_used)))
        ⊎ (ending ≡ aborted))
run_terminates_example = run_terminates identity_hash short_code value letter ten_gas (omega arith)

-- An interpreter with any code.
abbrev started : Interpreter
started = new short_code value letter ten_gas
