-- ===== src/StateModel/Error.antt =====
-- crates/protocol/onx-state-model/src/error.rs. The texts of the errors that carry one are left out.
use the_open_network_x.Prelude.{ℕ}
use the_open_network_x.Primitives.Error.{Bytes}

pub data StateModelError : Type 0 where
  invalid_descriptor : StateModelError
  data_too_large : ℕ → ℕ → StateModelError
  too_many_references : ℕ → ℕ → StateModelError
  deserialization_error : StateModelError
  trailing_bytes : ℕ → StateModelError
  invalid_state_type : ℕ → StateModelError
  invalid_state_transition : StateModelError
  logical_time_regression : ℕ → ℕ → StateModelError
  balance_underflow : StateModelError
  cyclic_cell_reference : StateModelError
  state_root_mismatch : Bytes → Bytes → StateModelError
  invalid_merkle_proof : StateModelError
