-- ===== src/StateModel/Examples.antt =====
-- The laws of account states at a concrete account.
use the_open_network_x.Prelude.{◌≡◌, refl, ◌++◌, [], ◌∷◌, length, ok, arith}
use the_open_network_x.Primitives.Hash.{zeros}
use the_open_network_x.StateModel.Account.{
  ActiveAccount, FrozenAccount, active_state, account_to_bytes, account_from_bytes,
}
use the_open_network_x.StateModel.Account.Laws.{account_from_bytes-to_bytes}

abbrev wallet : ActiveAccount
wallet = record {
  balance_nanos = 500;
  last_trans_lt = 10;
  code_hash = zeros 32;
  data_hash = zeros 32;
  storage_stat = record { cell_count = 2; byte_count = 64 };
}

abbrev frozen_wallet : FrozenAccount
frozen_wallet = record { balance_nanos = 400; last_trans_lt = 11; storage_hash = zeros 32 }

account_from_bytes-to_bytes_example :
    account_from_bytes (account_to_bytes (active_state wallet) ++ 7 ∷ [])
    ≡ ok (active_state wallet, length (account_to_bytes (active_state wallet)))
account_from_bytes-to_bytes_example =
    account_from_bytes-to_bytes (active_state wallet) (7 ∷ [])
      (omega arith, omega arith, refl, refl, omega arith, omega arith)
