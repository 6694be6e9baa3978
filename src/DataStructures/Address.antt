-- ===== src/DataStructures/Address.antt =====
-- crates/protocol/onx-data-structures/src/address.rs. A workchain identifier is an `i32`; an
-- account identifier is its 32 bytes.
use the_open_network_x.Prelude.{
  ◌-◌, ◌++◌, Bool, length, take, drop, Result, ok, err, ltb, if◌then◌else◌,
}
use the_open_network_x.Prelude.Int.{ℤ, pos, negsuc, of_pattern}
use the_open_network_x.Prelude.Words.{from_be}
use the_open_network_x.Prelude.Ord.{same}
use the_open_network_x.Prelude.Int.{int_ord}
use the_open_network_x.Primitives.Error.{Bytes}
use the_open_network_x.Primitives.Sint
use the_open_network_x.DataStructures.Error.{DataStructureError, truncated_input, trailing_bytes}

abbrev pub WorkchainIdent : Type 0
WorkchainIdent = ℤ

abbrev pub masterchain : WorkchainIdent
masterchain = negsuc 0

abbrev pub basic : WorkchainIdent
basic = pos 0

unfoldable pub is_masterchain : WorkchainIdent → Bool
is_masterchain self = same self (negsuc 0)

unfoldable pub workchain_to_bytes : WorkchainIdent → Bytes
workchain_to_bytes self = Sint.encode 4 self

-- The argument has four bytes, so this cannot fail.
unfoldable pub workchain_from_bytes : Bytes → WorkchainIdent
workchain_from_bytes bytes = of_pattern (Sint.half 4) (from_be bytes)

abbrev pub AccountId : Type 0
AccountId = Bytes

pub record FullAddress : Type 0 where
  pub workchain_id : WorkchainIdent
  pub account_id : AccountId

unfoldable pub address_to_bytes : FullAddress → Bytes
unfolding workchain_to_bytes
address_to_bytes self = workchain_to_bytes self.workchain_id ++ self.account_id

unfoldable pub address_from_bytes : Bytes → Result DataStructureError FullAddress
unfolding workchain_from_bytes
address_from_bytes bytes =
    if ltb (length bytes) 36
    then err (truncated_input 36 (length bytes))
    else if ltb 36 (length bytes)
    then err (trailing_bytes (length bytes - 36))
    else ok
        (record { workchain_id = workchain_from_bytes (take 4 bytes); account_id = drop 4 bytes })
