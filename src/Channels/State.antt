-- ===== src/Channels/State.antt =====
-- crates/protocol/onx-payment-channels/src/lib.rs: errors and channel states.
use the_open_network_x.Prelude.{ℕ, ◌++◌, Option, none, some, [], ◌∷◌}
use the_open_network_x.Primitives.Error.{Bytes}
use the_open_network_x.Primitives.FixedBytes.{Uint256}
use the_open_network_x.Primitives.Hash.{Crypto, DomainTag, from_ascii, domain_hash}
use the_open_network_x.Primitives.Uint

pub data ChannelError : Type 0 where
  invalid_signature : ChannelError
  non_increasing_sequence : ChannelError
  allocation_exceeds_deposit : ChannelError
  expired_condition : ChannelError
  mismatched_channel_id : ChannelError
  invalid_proof : ChannelError
  challenge_period_active : ChannelError
  challenge_period_expired : ChannelError

pub record ChannelState : Type 0 where
  pub channel_id : Uint256
  pub sequence : ℕ
  pub balance_party_a : ℕ
  pub balance_party_b : ℕ
  pub condition_hash : Option Uint256
  pub expiry_lt : Option ℕ

-- "ONX_CHANNEL_STATE_V1"
abbrev pub state_tag : DomainTag
state_tag = from_ascii (
    0x4f ∷ 0x4e ∷ 0x58 ∷ 0x5f ∷ 0x43 ∷ 0x48 ∷ 0x41 ∷ 0x4e ∷ 0x4e ∷ 0x45 ∷ 0x4c ∷ 0x5f ∷ 0x53 ∷ 0x54
    ∷ 0x41 ∷ 0x54 ∷ 0x45 ∷ 0x5f ∷ 0x56 ∷ 0x31 ∷ [])

-- The optional fields: a byte that tells whether the value follows.
unfoldable pub encode_condition : Option Uint256 → Bytes
encode_condition none = 0 ∷ []
encode_condition (some hash) = 1 ∷ hash

unfoldable pub encode_expiry : Option ℕ → Bytes
encode_expiry none = 0 ∷ []
encode_expiry (some lt) = 1 ∷ Uint.encode 8 lt

unfoldable pub state_to_bytes : ChannelState → Bytes
state_to_bytes self =
    self.channel_id
    ++ (Uint.encode 8 self.sequence
        ++ (Uint.encode 16 self.balance_party_a
            ++ (Uint.encode 16 self.balance_party_b
                ++ (encode_condition self.condition_hash ++ encode_expiry self.expiry_lt))))

unfoldable pub state_hash : Crypto → ChannelState → Uint256
state_hash crypto self = domain_hash crypto state_tag (state_to_bytes self)
