-- ===== src/DataStructures/Message.antt =====
-- crates/protocol/onx-data-structures/src/message.rs
pub mod Laws
use the_open_network_x.Prelude.{
  ℕ, zero, suc, ◌+◌, ◌-◌, ◌*◌, ◌++◌, Bool, true, false, ◌||◌, List, [], ◌∷◌, length, Result, ok,
  err, ◌>>=◌, is_ok, ltb, ◌==◌, if◌then◌else◌,
}
use the_open_network_x.Prelude.Words.{from_be}
use the_open_network_x.Primitives.Error.{Bytes}
use the_open_network_x.Primitives.FixedBytes.{Uint256}
use the_open_network_x.Primitives.Hash.{Crypto, DomainTag, from_ascii, domain_hash}
use the_open_network_x.Primitives.Uint
use the_open_network_x.DataStructures.Error.{
  DataStructureError, address_shard_mismatch, invalid_message_type, truncated_input, trailing_bytes,
}
use the_open_network_x.DataStructures.Address.{FullAddress, address_to_bytes, address_from_bytes}
use the_open_network_x.DataStructures.Shard.{ShardIdent, validate_full_address}
use the_open_network_x.DataStructures.Cursor.{field, uint, uint256}

pub data MessageType : Type 0 where
  internal external_inbound external_outbound : MessageType

unfoldable pub from_tag : ℕ → Result DataStructureError MessageType
from_tag byte =
    if byte == 0x01
    then ok MessageType.internal
    else if byte == 0x02
    then ok MessageType.external_inbound
    else if byte == 0x03
    then ok MessageType.external_outbound
    else err (invalid_message_type byte)

abbrev pub tag : MessageType → ℕ
tag MessageType.internal = 0x01
tag MessageType.external_inbound = 0x02
tag MessageType.external_outbound = 0x03

pub record Message : Type 0 where
  pub msg_type : MessageType
  pub src_address : FullAddress
  pub dest_address : FullAddress
  pub amount_nanos : ℕ
  pub extra_currencies : List (ℕ × ℕ)
  pub created_lt : ℕ
  pub body_cell_hash : Uint256

-- "ONX_MSG_HASH_V1"
abbrev pub message_tag : DomainTag
message_tag = from_ascii (
    0x4f ∷ 0x4e ∷ 0x58 ∷ 0x5f ∷ 0x4d ∷ 0x53 ∷ 0x47 ∷ 0x5f ∷ 0x48 ∷ 0x41 ∷ 0x53 ∷ 0x48 ∷ 0x5f ∷ 0x56
    ∷ 0x31 ∷ [])

abbrev pub fixed_length : ℕ
fixed_length = 1 + 36 + 36 + 16 + 4 + 8 + 32

-- The loops over the currency pairs.
unfoldable pub pairs_to_bytes : List (ℕ × ℕ) → Bytes
pairs_to_bytes [] = []
pairs_to_bytes ((currency_id, value) ∷ pairs) =
    Uint.encode 4 currency_id ++ (Uint.encode 16 value ++ pairs_to_bytes pairs)

unfoldable pub pairs_from_bytes : ℕ → Bytes → Result DataStructureError (List (ℕ × ℕ) × Bytes)
pairs_from_bytes zero bytes = ok ([], bytes)
pairs_from_bytes (suc count) bytes = do
  currency_id ← field 4 (uint 4) bytes
  value ← field 16 (uint 16) currency_id.1
  pairs ← pairs_from_bytes count value.1
  ok ((currency_id.0, value.0) ∷ pairs.0, pairs.1)

-- The count's cast to 32 bits keeps its low bits, as `Uint.encode` does.
unfoldable pub message_to_bytes : Message → Bytes
message_to_bytes self =
    (tag self.msg_type ∷ [])
    ++ (address_to_bytes self.src_address
        ++ (address_to_bytes self.dest_address
            ++ (Uint.encode 16 self.amount_nanos
                ++ (Uint.encode 4 (length self.extra_currencies)
                    ++ (pairs_to_bytes self.extra_currencies
                        ++ (Uint.encode 8 self.created_lt ++ self.body_cell_hash))))))

unfoldable pub message_hash : Crypto → Message → Bytes
message_hash crypto self = domain_hash crypto message_tag (message_to_bytes self)

-- The fields before the count.
unfoldable pub head_from_bytes :
    Bytes → Result DataStructureError ((MessageType × FullAddress × FullAddress × ℕ × ℕ) × Bytes)
head_from_bytes bytes = do
  msg_type ← field 1 (λ byte. from_tag (from_be byte)) bytes
  src_address ← field 36 address_from_bytes msg_type.1
  dest_address ← field 36 address_from_bytes src_address.1
  amount_nanos ← field 16 (uint 16) dest_address.1
  count ← field 4 (uint 4) amount_nanos.1
  ok ((msg_type.0, src_address.0, dest_address.0, amount_nanos.0, count.0), count.1)

-- The checked product and sum stay within 64 bits for a count of 32 bits, so they never fail.
unfoldable pub message_from_bytes : Bytes → Result DataStructureError Message
message_from_bytes bytes =
    if ltb (length bytes) fixed_length
    then err (truncated_input fixed_length (length bytes))
    else do
      head ← head_from_bytes bytes
      let (msg_type, src_address, dest_address, amount_nanos, count) = head.0
      let expected = fixed_length + count * 20
      if ltb (length bytes) expected
          then err (truncated_input expected (length bytes))
          else if ltb expected (length bytes)
          then err (trailing_bytes (length bytes - expected))
          else do
            pairs ← pairs_from_bytes count head.1
            created_lt ← field 8 (uint 8) pairs.1
            body_cell_hash ← field 32 uint256 created_lt.1
            ok (record {
              msg_type = msg_type;
              src_address = src_address;
              dest_address = dest_address;
              amount_nanos = amount_nanos;
              extra_currencies = pairs.0;
              created_lt = created_lt.0;
              body_cell_hash = body_cell_hash.0;
            })

unfoldable pub validate_source_shard : Message → ShardIdent → Result DataStructureError (Unit {0})
validate_source_shard self shard = validate_full_address shard self.src_address

unfoldable pub validate_dest_shard : Message → ShardIdent → Result DataStructureError (Unit {0})
validate_dest_shard self shard = validate_full_address shard self.dest_address

unfoldable pub validate_against_shard : Message → ShardIdent → Result DataStructureError (Unit {0})
validate_against_shard self shard = elim self.msg_type [
  | MessageType.internal ↦
      if is_ok (validate_source_shard self shard) || is_ok (validate_dest_shard self shard)
      then ok tt
      else err address_shard_mismatch
  | MessageType.external_inbound ↦ validate_dest_shard self shard
  | MessageType.external_outbound ↦ validate_source_shard self shard
]
