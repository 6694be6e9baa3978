-- ===== src/Transactions/Error.antt =====
-- crates/protocol/onx-transactions/src/error.rs
use the_open_network_x.Prelude.{ℕ}
use the_open_network_x.DataStructures.Message.{MessageType}

pub data TransactionsError : Type 0 where
  wrong_message_type : MessageType → MessageType → TransactionsError
  non_zero_external_value : TransactionsError
  unsorted_extra_currencies : TransactionsError
  duplicate_currency_id : ℕ → TransactionsError
  tentative_signature_invalid : TransactionsError
  tentative_gas_limit_exceeded : ℕ → ℕ → TransactionsError
  internal_source_not_active : TransactionsError
  duplicate_delivery : TransactionsError
  fifo_order_violation : ℕ → ℕ → TransactionsError
  logical_time_regression : ℕ → ℕ → TransactionsError
  incompatible_route : TransactionsError
  route_endpoint_mismatch : TransactionsError
  invalid_hypercube_hop : TransactionsError
  insufficient_transit_fee : ℕ → ℕ → TransactionsError
  expiry_overflow : TransactionsError
