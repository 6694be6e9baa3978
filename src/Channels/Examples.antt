-- ===== src/Channels/Examples.antt =====
-- The channel theorems at concrete inputs: a channel with a deposit of 100.
use the_open_network_x.Prelude.{
  ℕ, ◌≤◌, ◌<◌, ◌≡◌, refl, Bool, true, none, some, List, [], ◌∷◌, ok, err, arith,
}
use the_open_network_x.Prelude.Ord.{bytes_ord}
use the_open_network_x.Prelude.BTreeMap.{lookup, insert}
use the_open_network_x.Prelude.Int.{pos}
use the_open_network_x.Primitives.Hash.{Crypto}
use the_open_network_x.Primitives.Signature.{verify}
use the_open_network_x.DataStructures.Address.{FullAddress}
use the_open_network_x.Channels.State.{ChannelState, non_increasing_sequence, invalid_proof}
use the_open_network_x.Channels.Arbiter.{
  PaymentChannelArbiter, within_deposit, verify_dual_signatures, submit_uncooperative_state,
}
use the_open_network_x.Channels.Arbiter
use the_open_network_x.Channels.Arbiter.Runs.{Call, IsAgreed, run-IsAgreed, submit_outlasts}
use the_open_network_x.Channels.Arbiter.Runs as Arbiter_runs
use the_open_network_x.StateModel.Cell.{Cell}
use the_open_network_x.Channels.Merkle.{verify_merkle_proof, verify_merkle_proof_lem}
use the_open_network_x.Channels.Daemon.{
  SignedStateEnvelope, PaymentChannelDaemon, latest_state, track, is_stale_submission,
  exchange_signed_state, watch, run_flow,
}
use the_open_network_x.Channels.Daemon
use the_open_network_x.Channels.Daemon.Laws.{new-IsTracked, exchange_order}
use the_open_network_x.Channels.Daemon.Runs.{latest_state-run}
use the_open_network_x.Channels.Daemon.Runs as Daemon_runs
use the_open_network_x.Channels.Daemon.Settlement.{any_due, watch_lem, run_flow_settles}

-- Every signature is taken to be valid.
abbrev any_signature : Crypto
any_signature = record {
  sha256 = λ bs. bs;
  is_canonical_key = λ k. true;
  verify_strict = λ k m s. true;
}

abbrev party : FullAddress
party = record { workchain_id = pos 0; account_id = [] }

abbrev fresh : PaymentChannelArbiter
fresh = Arbiter.new (5 ∷ []) party party [] [] 100 20

abbrev state_of : ℕ → ℕ → ℕ → ChannelState
state_of sequence a b = record {
  channel_id = 5 ∷ [];
  sequence = sequence;
  balance_party_a = a;
  balance_party_b = b;
  condition_hash = none;
  expiry_lt = none;
}

abbrev envelope_of : ℕ → ℕ → ℕ → SignedStateEnvelope
envelope_of sequence a b = record { state = state_of sequence a b; sig_a = []; sig_b = [] }

abbrev dispute_calls : List Call
dispute_calls = Call.submit (state_of 4 50 50) [] [] 30 ∷ Call.finalize 60 ∷ []

run-IsAgreed_example :
    IsAgreed any_signature 100 (Arbiter_runs.run any_signature fresh dispute_calls)
run-IsAgreed_example =
    run-IsAgreed any_signature (5 ∷ []) party party [] [] 100 20 dispute_calls (omega arith)

abbrev disputed : PaymentChannelArbiter
disputed = record (Arbiter.new (5 ∷ []) party party [] [] 100 20) {
  latest_state = state_of 3 60 40;
  challenge_start_lt = some 10;
}

submit_outlasts_example :
    (0 < 3) × (3 ≤ (Arbiter_runs.run any_signature disputed dispute_calls).latest_state.sequence)
unfolding submit_uncooperative_state within_deposit verify_dual_signatures verify Arbiter.new
submit_outlasts_example =
    submit_outlasts any_signature fresh (state_of 3 60 40) [] [] 10 dispute_calls {a' = disputed}
      refl (tt, (tt, tt))

abbrev daemon : PaymentChannelDaemon
daemon = Daemon.new fresh

abbrev second : PaymentChannelDaemon
second = track daemon (record fresh { latest_state = state_of 1 90 10 })

abbrev third : PaymentChannelDaemon
third = track second (record fresh { latest_state = state_of 2 80 20 })

exchange_order_example :
    (exchange_signed_state any_signature daemon (envelope_of 2 80 20) ≡ ok third)
    × (exchange_signed_state any_signature third (envelope_of 1 90 10)
        ≡ err non_increasing_sequence)
unfolding exchange_signed_state within_deposit verify_dual_signatures verify latest_state track
    lookup insert Daemon.new Arbiter.new
exchange_order_example =
    exchange_order any_signature daemon (envelope_of 1 90 10) (envelope_of 2 80 20) {d' = second}
      {d'' = third} refl refl

abbrev daemon_calls : List Daemon_runs.Call
daemon_calls =
    Daemon_runs.Call.exchange (envelope_of 1 90 10)
    ∷ Daemon_runs.Call.flow (envelope_of 2 80 20) 7
    ∷ []

latest_state-run_example :
    latest_state (Daemon_runs.run any_signature (Daemon.new fresh) daemon_calls)
    ≡ (Daemon_runs.run any_signature (Daemon.new fresh) daemon_calls).arbiter.latest_state
latest_state-run_example = latest_state-run any_signature fresh daemon_calls

abbrev watched : PaymentChannelDaemon
watched = Daemon.new disputed

watch_example :
    (watch watched (15 ∷ 31 ∷ [])).arbiter.is_settled
    ≡ any_due 10 watched.arbiter.challenge_window_lt (15 ∷ 31 ∷ [])
unfolding Daemon.new Arbiter.new
watch_example = watch_lem watched 10 (15 ∷ 31 ∷ []) refl refl

run_flow_settles_example :
    ((run_flow any_signature daemon (envelope_of 1 90 10) 7).1 ≡ ok tt)
    × ((run_flow any_signature daemon (envelope_of 1 90 10) 7).0.arbiter.is_settled ≡ true)
    × ((run_flow any_signature daemon (envelope_of 1 90 10) 7).0.arbiter.latest_state
        ≡ state_of 1 90 10)
unfolding is_stale_submission latest_state within_deposit verify_dual_signatures verify lookup
    insert Daemon.new Arbiter.new
run_flow_settles_example =
    run_flow_settles any_signature daemon (envelope_of 1 90 10) 7 (new-IsTracked fresh) refl
      (refl, refl, refl) (omega arith)

-- A cell of two bytes, and a special one.
abbrev proof_of : Bool → Cell
proof_of special = record { data_bytes = 1 ∷ 2 ∷ []; cell_refs = []; is_special = special }

verify_merkle_proof_example :
    verify_merkle_proof any_signature (proof_of true) ≡ some (err invalid_proof)
verify_merkle_proof_example = verify_merkle_proof_lem any_signature (proof_of true)
