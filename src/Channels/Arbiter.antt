-- ===== src/Channels/Arbiter.antt =====
-- crates/protocol/onx-payment-channels/src/lib.rs: the arbiter. `verify_merkle_proof` is in
-- Merkle.
pub mod Laws
pub mod Runs
use the_open_network_x.Prelude.{
  ℕ, Bool, true, false, not, Option, none, some, Result, ok, err, ◌>>=◌, ◌>>◌, require, ok_or,
  map_err, ltb, leb,
}
use the_open_network_x.Prelude.Ord.{same, bytes_ord}
use the_open_network_x.Prelude.Words.{u64_max, u128_max, saturating_add}
use the_open_network_x.Primitives.FixedBytes.{Uint256}
use the_open_network_x.Primitives.Hash.{Crypto, tx_body_v1}
use the_open_network_x.Primitives.Signature.{PublicKey, Signature, verify}
use the_open_network_x.DataStructures.Address.{FullAddress}
use the_open_network_x.Channels.State.{
  ChannelError, ChannelState, state_hash, invalid_signature, non_increasing_sequence,
  allocation_exceeds_deposit, mismatched_channel_id, challenge_period_active,
}

pub record PaymentChannelArbiter : Type 0 where
  pub channel_id : Uint256
  pub party_a : FullAddress
  pub party_b : FullAddress
  pub pubkey_a : PublicKey
  pub pubkey_b : PublicKey
  pub total_deposit : ℕ
  pub challenge_window_lt : ℕ
  pub latest_state : ChannelState
  pub challenge_start_lt : Option ℕ
  pub is_settled : Bool

-- The state in which the first party holds the whole deposit.
abbrev pub initial_state : Uint256 → ℕ → ChannelState
initial_state channel_id total_deposit = record {
  channel_id = channel_id;
  sequence = 0;
  balance_party_a = total_deposit;
  balance_party_b = 0;
  condition_hash = none;
  expiry_lt = none;
}

unfoldable pub new :
    Uint256 → FullAddress → FullAddress → PublicKey → PublicKey → ℕ → ℕ → PaymentChannelArbiter
new channel_id party_a party_b pubkey_a pubkey_b total_deposit challenge_window_lt = record {
  channel_id = channel_id;
  party_a = party_a;
  party_b = party_b;
  pubkey_a = pubkey_a;
  pubkey_b = pubkey_b;
  total_deposit = total_deposit;
  challenge_window_lt = challenge_window_lt;
  latest_state = initial_state channel_id total_deposit;
  challenge_start_lt = none;
  is_settled = false;
}

-- The test that the allocation is within the deposit.
unfoldable pub within_deposit : ℕ → ChannelState → Bool
within_deposit total_deposit state =
    not (ltb total_deposit (saturating_add u128_max state.balance_party_a state.balance_party_b))

-- A call that fails leaves the arbiter as it was.
unfoldable pub finalize_uncooperative_settlement :
    PaymentChannelArbiter → ℕ → Result ChannelError PaymentChannelArbiter
finalize_uncooperative_settlement self current_lt = do
  start_lt ← ok_or self.challenge_start_lt challenge_period_active
  require (not (ltb current_lt (saturating_add u64_max start_lt self.challenge_window_lt)))
      challenge_period_active
  ok (record self { is_settled = true })

module _ (crypto : Crypto) where
  unfoldable pub verify_dual_signatures :
      PaymentChannelArbiter → ChannelState → Signature → Signature → Result ChannelError (Unit {0})
  verify_dual_signatures self state sig_a sig_b = do
    map_err (λ _. invalid_signature)
        (verify crypto self.pubkey_a tx_body_v1 (state_hash crypto state) sig_a)
    map_err (λ _. invalid_signature)
        (verify crypto self.pubkey_b tx_body_v1 (state_hash crypto state) sig_b)
    ok tt

  unfoldable pub cooperative_settle :
      PaymentChannelArbiter
      → ChannelState
      → Signature
      → Signature
      → Result ChannelError PaymentChannelArbiter
  cooperative_settle self state sig_a sig_b = do
    require (same state.channel_id self.channel_id) mismatched_channel_id
    require (within_deposit self.total_deposit state) allocation_exceeds_deposit
    verify_dual_signatures self state sig_a sig_b
    ok (record self { latest_state = state; is_settled = true })

  unfoldable pub submit_uncooperative_state :
      PaymentChannelArbiter
      → ChannelState
      → Signature
      → Signature
      → ℕ
      → Result ChannelError PaymentChannelArbiter
  submit_uncooperative_state self state sig_a sig_b current_lt = do
    require (same state.channel_id self.channel_id) mismatched_channel_id
    require (not (leb state.sequence self.latest_state.sequence)) non_increasing_sequence
    require (within_deposit self.total_deposit state) allocation_exceeds_deposit
    verify_dual_signatures self state sig_a sig_b
    ok (record self { latest_state = state; challenge_start_lt = some current_lt })
