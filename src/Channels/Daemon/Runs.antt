-- ===== src/Channels/Daemon/Runs.antt =====
-- The daemon agrees with its arbiter, whatever calls reach it.
use the_open_network_x.Prelude.{
  ℕ, ◌+◌, ◌%◌, ◌^◌, ◌≡◌, refl, ap, List, [], ◌∷◌, Result, ok, err, inl, inr, arith, Result-cases,
  Bool-cases,
}
use the_open_network_x.Prelude.Ord.{bytes_ord}
use the_open_network_x.Primitives.Hash.{Crypto}
use the_open_network_x.Channels.State.{ChannelError}
use the_open_network_x.Channels.Arbiter.{
  PaymentChannelArbiter, cooperative_settle, submit_uncooperative_state,
  finalize_uncooperative_settlement,
}
use the_open_network_x.Channels.Arbiter.Laws.{settle_inv, submit_inv}
use the_open_network_x.Channels.Daemon.{
  SignedStateEnvelope, PaymentChannelDaemon, new, latest_state, is_stale_submission,
  finalize_dispute_if_due, exchange_signed_state, exchange_cooperative_settlement,
  submit_uncooperative_dispute, run_flow,
}
use the_open_network_x.Channels.Daemon.Laws.{
  IsTracked, latest-tracked, track-IsTracked, new-IsTracked, exchange_inv,
}

pub data Call : Type 0 where
  exchange : SignedStateEnvelope → Call
  settle : SignedStateEnvelope → Call
  dispute : SignedStateEnvelope → ℕ → Call
  due : ℕ → Call
  flow : SignedStateEnvelope → ℕ → Call

-- A call that fails leaves the daemon as it was, but for `run_flow`, which tells what it leaves.
abbrev pub after :
    PaymentChannelDaemon → Result ChannelError PaymentChannelDaemon → PaymentChannelDaemon
after d (ok d') = d'
after d (err x) = d

module _ (crypto : Crypto) where
  unfoldable pub step : PaymentChannelDaemon → Call → PaymentChannelDaemon
  step d (exchange e) = after d (exchange_signed_state crypto d e)
  step d (settle e) = after d (exchange_cooperative_settlement crypto d e)
  step d (dispute e now) = after d (submit_uncooperative_dispute crypto d e now)
  step d (due now) = after d (finalize_dispute_if_due d now)
  step d (flow e now) = (run_flow crypto d e now).0

  unfoldable pub run : PaymentChannelDaemon → List Call → PaymentChannelDaemon
  run d [] = d
  run d (c ∷ cs) = run (step d c) cs

  exchange-IsTracked :
      (d : PaymentChannelDaemon) (e : SignedStateEnvelope)
      → IsTracked d
      → IsTracked (after d (exchange_signed_state crypto d e))
  exchange-IsTracked d e t = elim (Result-cases (exchange_signed_state crypto d e)) [
    | inl (d', h) ↦
        let (_, _, d_is) = exchange_inv crypto d e h in
        rw (h, d_is) (track-IsTracked d (record d.arbiter { latest_state = e.state }) refl)
    | inr (x, h) ↦ rw h t
  ]

  settle-IsTracked :
      (d : PaymentChannelDaemon) (e : SignedStateEnvelope)
      → IsTracked d
      → IsTracked (after d (exchange_cooperative_settlement crypto d e))
  unfolding exchange_cooperative_settlement
  settle-IsTracked d e t =
      elim (Result-cases (cooperative_settle crypto d.arbiter e.state e.sig_a e.sig_b)) [
        | inl (a, h) ↦
            let (_, a_is) = settle_inv crypto d.arbiter e.state e.sig_a e.sig_b h in
            rw h (track-IsTracked d a (ap (λ b. b.channel_id) a_is))
        | inr (x, h) ↦ rw h t
      ]

  dispute-IsTracked :
      (d : PaymentChannelDaemon) (e : SignedStateEnvelope) (now : ℕ)
      → IsTracked d
      → IsTracked (after d (submit_uncooperative_dispute crypto d e now))
  unfolding submit_uncooperative_dispute
  dispute-IsTracked d e now t =
      elim (Result-cases
        (submit_uncooperative_state crypto d.arbiter e.state e.sig_a e.sig_b now)) [
          | inl (a, h) ↦
              let (_, _, a_is) = submit_inv crypto d.arbiter e.state e.sig_a e.sig_b now h in
              rw h (track-IsTracked d a (ap (λ b. b.channel_id) a_is))
          | inr (x, h) ↦ rw h t
        ]

  due-IsTracked :
      (d : PaymentChannelDaemon) (now : ℕ)
      → IsTracked d
      → IsTracked (after d (finalize_dispute_if_due d now))
  unfolding finalize_dispute_if_due finalize_uncooperative_settlement
  due-IsTracked d now t = ground arith

  flow-IsTracked :
      (d : PaymentChannelDaemon) (e : SignedStateEnvelope) (now : ℕ)
      → IsTracked d
      → IsTracked (run_flow crypto d e now).0
  unfolding run_flow
  flow-IsTracked d e now t = elim (Bool-cases (is_stale_submission d e.state)) [
    | inl stale ↦ elim (Result-cases (submit_uncooperative_dispute crypto d e now)) [
      | inl (d', h) ↦
          let t' : IsTracked d' = rw h at (dispute-IsTracked d e now t) in
          let due_at = (now + d'.arbiter.challenge_window_lt) % 2 ^ 64 in
          elim (Result-cases (finalize_dispute_if_due d' due_at)) [
            | inl (d'', k) ↦ rw (stale, h, k) (rw k at (due-IsTracked d' due_at t'))
            | inr (x, k) ↦ rw (stale, h, k) t'
          ]
      | inr (x, h) ↦ rw (stale, h) t
    ]
    | inr current ↦ elim (Result-cases (exchange_signed_state crypto d e)) [
      | inl (d', h) ↦ rw (current, h) (rw h at (exchange-IsTracked d e t))
      | inr (x, h) ↦ rw (current, h) t
    ]
  ]

  step-IsTracked : (d : PaymentChannelDaemon) (c : Call) → IsTracked d → IsTracked (step d c)
  unfolding step
  step-IsTracked d (exchange e) t = exchange-IsTracked d e t
  step-IsTracked d (settle e) t = settle-IsTracked d e t
  step-IsTracked d (dispute e now) t = dispute-IsTracked d e now t
  step-IsTracked d (due now) t = due-IsTracked d now t
  step-IsTracked d (flow e now) t = flow-IsTracked d e now t

  run-IsTracked : (d : PaymentChannelDaemon) (cs : List Call) → IsTracked d → IsTracked (run d cs)
  unfolding run
  run-IsTracked d [] t = t
  run-IsTracked d (c ∷ cs) t = run-IsTracked (step d c) cs (step-IsTracked d c t)

  -- Whatever calls reach the daemon of an arbiter, the state it reports is its arbiter's latest.
  pub latest_state-run :
      (a : PaymentChannelArbiter) (cs : List Call)
      → latest_state (run (new a) cs) ≡ (run (new a) cs).arbiter.latest_state
  latest_state-run a cs =
      latest-tracked (run (new a) cs) (run-IsTracked (new a) cs (new-IsTracked a))
