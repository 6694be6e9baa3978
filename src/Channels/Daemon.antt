-- ===== src/Channels/Daemon.antt =====
-- crates/protocol/onx-payment-channels/src/daemon.rs: the daemon. The hash map from channels to
-- states is an ordered map here: it is only looked up and inserted into.
pub mod Laws
pub mod Runs
pub mod Settlement
use the_open_network_x.Prelude.{
  ℕ, ◌+◌, ◌%◌, ◌^◌, Bool, true, false, not, ◌&&◌, ◌||◌, Option, none, some, List, [], ◌∷◌, Result,
  ok, err, ◌>>=◌, ◌>>◌, require, ltb, leb, ◌==◌, if◌then◌else◌,
}
use the_open_network_x.Prelude.Ord.{same, bytes_ord}
use the_open_network_x.Prelude.BTreeMap.{BTreeMap, lookup, insert}
use the_open_network_x.Primitives.FixedBytes.{Uint256}
use the_open_network_x.Primitives.Hash.{Crypto}
use the_open_network_x.Primitives.Signature.{Signature}
use the_open_network_x.Channels.State.{
  ChannelError, ChannelState, non_increasing_sequence, allocation_exceeds_deposit,
  mismatched_channel_id,
}
use the_open_network_x.Channels.Arbiter.{
  PaymentChannelArbiter, within_deposit, verify_dual_signatures, cooperative_settle,
  submit_uncooperative_state, finalize_uncooperative_settlement,
}

pub record SignedStateEnvelope : Type 0 where
  pub state : ChannelState
  pub sig_a : Signature
  pub sig_b : Signature

pub record PaymentChannelDaemon : Type 0 where
  pub arbiter : PaymentChannelArbiter
  pub latest_by_channel : BTreeMap Uint256 ChannelState

unfoldable pub new : PaymentChannelArbiter → PaymentChannelDaemon
new arbiter = record {
  arbiter = arbiter;
  latest_by_channel = insert arbiter.channel_id arbiter.latest_state [];
}

unfoldable pub latest_state : PaymentChannelDaemon → ChannelState
latest_state self = elim (lookup self.arbiter.channel_id self.latest_by_channel) [
  | none ↦ self.arbiter.latest_state
  | some state ↦ state
]

-- The arbiter after a call, with its latest state recorded in the map.
unfoldable pub track : PaymentChannelDaemon → PaymentChannelArbiter → PaymentChannelDaemon
track self arbiter = record {
  arbiter = arbiter;
  latest_by_channel = insert self.arbiter.channel_id arbiter.latest_state self.latest_by_channel;
}

unfoldable pub is_stale_submission : PaymentChannelDaemon → ChannelState → Bool
is_stale_submission self state =
    let latest = latest_state self in
    ltb latest.sequence state.sequence
    && (not (state.balance_party_a == latest.balance_party_a)
        || not (state.balance_party_b == latest.balance_party_b))

-- A call that fails leaves the daemon as it was.
unfoldable pub finalize_dispute_if_due :
    PaymentChannelDaemon → ℕ → Result ChannelError PaymentChannelDaemon
finalize_dispute_if_due self current_lt = elim self.arbiter.challenge_start_lt [
  | none ↦ ok self
  | some start ↦ do
    arbiter ← finalize_uncooperative_settlement self.arbiter current_lt
    ok (record self { arbiter = arbiter })
]

-- The background watcher: what its ticks do to its copy of the daemon. It ignores the errors.
unfoldable pub watch : PaymentChannelDaemon → List ℕ → PaymentChannelDaemon
watch daemon [] = daemon
watch daemon (observed_lt ∷ later) =
    watch (elim (finalize_dispute_if_due daemon observed_lt) [ ok d ↦ d | err x ↦ daemon ]) later

module _ (crypto : Crypto) where
  unfoldable pub exchange_signed_state :
      PaymentChannelDaemon → SignedStateEnvelope → Result ChannelError PaymentChannelDaemon
  exchange_signed_state self envelope = do
    require (same envelope.state.channel_id self.arbiter.channel_id) mismatched_channel_id
    verify_dual_signatures crypto self.arbiter envelope.state envelope.sig_a envelope.sig_b
    require (not (leb envelope.state.sequence (latest_state self).sequence)) non_increasing_sequence
    require (within_deposit self.arbiter.total_deposit envelope.state) allocation_exceeds_deposit
    ok (track self (record self.arbiter { latest_state = envelope.state }))

  unfoldable pub exchange_cooperative_settlement :
      PaymentChannelDaemon → SignedStateEnvelope → Result ChannelError PaymentChannelDaemon
  exchange_cooperative_settlement self envelope = do
    arbiter ← cooperative_settle crypto self.arbiter envelope.state envelope.sig_a envelope.sig_b
    ok (track self arbiter)

  unfoldable pub receive_signed_state_and_track :
      PaymentChannelDaemon → SignedStateEnvelope → Result ChannelError PaymentChannelDaemon
  receive_signed_state_and_track self envelope = exchange_signed_state self envelope

  unfoldable pub submit_uncooperative_dispute :
      PaymentChannelDaemon → SignedStateEnvelope → ℕ → Result ChannelError PaymentChannelDaemon
  submit_uncooperative_dispute self envelope current_lt = do
    arbiter ←
        submit_uncooperative_state crypto self.arbiter envelope.state envelope.sig_a envelope.sig_b
          current_lt
    ok (track self arbiter)

  -- The daemon after the call, also where it fails: a dispute that is submitted stays when its
  -- finalization fails. The sum of the times wraps at 64 bits.
  unfoldable pub run_flow :
      PaymentChannelDaemon
      → SignedStateEnvelope
      → ℕ
      → PaymentChannelDaemon × Result ChannelError (Unit {0})
  run_flow self envelope current_lt =
      if is_stale_submission self envelope.state
      then elim (submit_uncooperative_dispute self envelope current_lt) [
        | err x ↦ (self, err x)
        | ok disputed ↦
            elim (finalize_dispute_if_due disputed
              ((current_lt + disputed.arbiter.challenge_window_lt) % 2 ^ 64)) [
                | err x ↦ (disputed, err x)
                | ok settled ↦ (settled, ok tt)
              ]
      ]
      else elim (exchange_signed_state self envelope) [ err x ↦ (self, err x) | ok d ↦ (d, ok tt) ]
