-- ===== src/StateModel/Account.antt =====
-- crates/protocol/onx-state-model/src/account.rs. A balance difference, an `i128`, is an integer.
pub mod Laws
use the_open_network_x.Prelude.{
  ℕ, suc, ◌+◌, ◌-◌, ◌++◌, Bool, true, false, not, ◌||◌, List, [], ◌∷◌, length, take, drop, Result,
  ok, err, ◌>>=◌, ◌>>◌, require, map_err, ltb, leb, ◌==◌, if◌then◌else◌,
}
use the_open_network_x.Prelude.Int.{ℤ, pos, negsuc}
use the_open_network_x.Prelude.Words.{u128_max, saturating_add}
use the_open_network_x.Primitives.Error.{Bytes}
use the_open_network_x.Primitives.Uint
use the_open_network_x.StateModel.Error.{
  StateModelError, deserialization_error, invalid_state_type, invalid_state_transition,
  logical_time_regression, balance_underflow,
}

pub data AccountType : Type 0 where
  uninitialized active frozen destroyed : AccountType

unfoldable pub from_u8 : ℕ → Result StateModelError AccountType
from_u8 value =
    if value == 0
    then ok AccountType.uninitialized
    else if value == 1
    then ok AccountType.active
    else if value == 2
    then ok AccountType.frozen
    else if value == 3
    then ok AccountType.destroyed
    else err (invalid_state_type value)

unfoldable pub to_u8 : AccountType → ℕ
to_u8 AccountType.uninitialized = 0
to_u8 AccountType.active = 1
to_u8 AccountType.frozen = 2
to_u8 AccountType.destroyed = 3

pub record StorageStat : Type 0 where
  pub cell_count : ℕ
  pub byte_count : ℕ

-- The fields of the variant Active.
pub record ActiveAccount : Type 0 where
  pub balance_nanos : ℕ
  pub last_trans_lt : ℕ
  pub code_hash : Bytes
  pub data_hash : Bytes
  pub storage_stat : StorageStat

-- The fields of the variant Frozen.
pub record FrozenAccount : Type 0 where
  pub balance_nanos : ℕ
  pub last_trans_lt : ℕ
  pub storage_hash : Bytes

pub data AccountState : Type 0 where
  uninitialized_state : AccountState
  active_state : ActiveAccount → AccountState
  frozen_state : FrozenAccount → AccountState
  destroyed_state : AccountState

abbrev pub account_type : AccountState → AccountType
account_type uninitialized_state = AccountType.uninitialized
account_type (active_state a) = AccountType.active
account_type (frozen_state f) = AccountType.frozen
account_type destroyed_state = AccountType.destroyed

abbrev pub balance_of : AccountState → ℕ
balance_of uninitialized_state = 0
balance_of (active_state a) = a.balance_nanos
balance_of (frozen_state f) = f.balance_nanos
balance_of destroyed_state = 0

unfoldable pub account_to_bytes : AccountState → Bytes
account_to_bytes uninitialized_state = 0 ∷ []
account_to_bytes (active_state a) =
    1
    ∷ (Uint.encode 16 a.balance_nanos
        ++ (Uint.encode 8 a.last_trans_lt
            ++ (a.code_hash
                ++ (a.data_hash
                    ++ (Uint.encode 4 a.storage_stat.cell_count
                        ++ Uint.encode 8 a.storage_stat.byte_count)))))
account_to_bytes (frozen_state f) =
    2 ∷ (Uint.encode 16 f.balance_nanos ++ (Uint.encode 8 f.last_trans_lt ++ f.storage_hash))
account_to_bytes destroyed_state = 3 ∷ []

abbrev pub read_uint : ℕ → Bytes → Result StateModelError (ℕ × Bytes)
read_uint n cursor = map_err (λ _. deserialization_error) (Uint.read n cursor)

-- The two arms that have fields, with the number of bytes that they have read.
unfoldable pub frozen_from_bytes : Bytes → Result StateModelError (AccountState × ℕ)
frozen_from_bytes cursor = do
  balance ← read_uint 16 cursor
  last_lt ← read_uint 8 balance.1
  require (not (ltb (length last_lt.1) 32)) deserialization_error
  let account : FrozenAccount = record {
    balance_nanos = balance.0;
    last_trans_lt = last_lt.0;
    storage_hash = take 32 last_lt.1;
  }
  ok (frozen_state account, 1 + 16 + 8 + 32)

unfoldable pub active_from_bytes : Bytes → Result StateModelError (AccountState × ℕ)
active_from_bytes cursor = do
  balance ← read_uint 16 cursor
  last_lt ← read_uint 8 balance.1
  require (not (ltb (length last_lt.1) 64)) deserialization_error
  cell_count ← read_uint 4 (drop 32 (drop 32 last_lt.1))
  byte_count ← read_uint 8 cell_count.1
  let stat : StorageStat = record { cell_count = cell_count.0; byte_count = byte_count.0 }
  let account : ActiveAccount = record {
    balance_nanos = balance.0;
    last_trans_lt = last_lt.0;
    code_hash = take 32 last_lt.1;
    data_hash = take 32 (drop 32 last_lt.1);
    storage_stat = stat;
  }
  ok (active_state account, 1 + 16 + 8 + 32 + 32 + 4 + 8)

-- The arm of a state type.
unfoldable pub state_from_bytes : AccountType → Bytes → Result StateModelError (AccountState × ℕ)
state_from_bytes AccountType.uninitialized cursor = ok (uninitialized_state, 1)
state_from_bytes AccountType.destroyed cursor = ok (destroyed_state, 1)
state_from_bytes AccountType.frozen cursor = frozen_from_bytes cursor
state_from_bytes AccountType.active cursor = active_from_bytes cursor

-- The state and the number of bytes read; more bytes may follow. Reading the type cannot fail where there is a byte.
unfoldable pub account_from_bytes : Bytes → Result StateModelError (AccountState × ℕ)
account_from_bytes [] = err deserialization_error
account_from_bytes (state_type_val ∷ cursor) = do
  state_type ← from_u8 state_type_val
  state_from_bytes state_type cursor

-- The check of the arms with two logical times.
abbrev pub check_lt : ℕ → ℕ → ℕ → Result StateModelError (Unit {0})
check_lt cur_lt next_lt new_lt =
    require (not (leb new_lt cur_lt || not (next_lt == new_lt)))
      (logical_time_regression cur_lt new_lt)

unfoldable pub validate_transition :
    AccountState → AccountState → ℕ → Result StateModelError (Unit {0})
validate_transition destroyed_state next new_lt = err invalid_state_transition
validate_transition uninitialized_state (active_state b) new_lt =
    require (b.last_trans_lt == new_lt) (logical_time_regression b.last_trans_lt new_lt)
validate_transition uninitialized_state uninitialized_state new_lt = ok tt
validate_transition uninitialized_state (frozen_state b) new_lt = err invalid_state_transition
validate_transition uninitialized_state destroyed_state new_lt = err invalid_state_transition
validate_transition (active_state a) (active_state b) new_lt =
    check_lt a.last_trans_lt b.last_trans_lt new_lt
validate_transition (active_state a) (frozen_state b) new_lt =
    check_lt a.last_trans_lt b.last_trans_lt new_lt
validate_transition (active_state a) destroyed_state new_lt = ok tt
validate_transition (active_state a) uninitialized_state new_lt = err invalid_state_transition
validate_transition (frozen_state a) (active_state b) new_lt =
    check_lt a.last_trans_lt b.last_trans_lt new_lt
validate_transition (frozen_state a) (frozen_state b) new_lt =
    check_lt a.last_trans_lt b.last_trans_lt new_lt
validate_transition (frozen_state a) destroyed_state new_lt = ok tt
validate_transition (frozen_state a) uninitialized_state new_lt = err invalid_state_transition

-- The balance that the difference leads to.
unfoldable pub expected_balance : ℕ → ℤ → Result StateModelError ℕ
expected_balance cur_balance (pos n) = ok (saturating_add u128_max cur_balance n)
expected_balance cur_balance (negsuc n) =
    if ltb cur_balance (suc n) then err balance_underflow else ok (cur_balance - suc n)

abbrev pub has_balance : AccountState → ℕ → Bool
has_balance (active_state b) expected = b.balance_nanos == expected
has_balance (frozen_state b) expected = b.balance_nanos == expected
has_balance _ expected = true

-- The check of the balance, behind that of the transition.
unfoldable pub check_balance : ℕ → ℤ → AccountState → Result StateModelError (Unit {0})
check_balance cur_balance balance_delta next = do
  expected ← expected_balance cur_balance balance_delta
  require (has_balance next expected) invalid_state_transition
  ok tt

unfoldable pub validate_transition_with_delta :
    AccountState → AccountState → ℕ → ℤ → Result StateModelError (Unit {0})
validate_transition_with_delta self next new_lt balance_delta = do
  validate_transition self next new_lt
  check_balance (balance_of self) balance_delta next
