-- ===== src/Channels/Daemon/Settlement.antt =====
-- When the watcher and `run_flow` settle a channel.
use the_open_network_x.Prelude.{
  ℕ, ◌+◌, ◌≤◌, ◌≡◌, refl, Bool, true, false, not, ◌||◌, ltb, some, List, [], ◌∷◌, ok, err, inl, inr,
  arith, min, Bool-cases,
}
use the_open_network_x.Prelude.Ord.{bytes_ord}
use the_open_network_x.Prelude.Words.{u64_max}
use the_open_network_x.Primitives.Hash.{Crypto}
use the_open_network_x.Channels.Arbiter.{
  submit_uncooperative_state, finalize_uncooperative_settlement,
}
use the_open_network_x.Channels.Arbiter.Laws.{IsAllowed}
use the_open_network_x.Channels.Daemon.{
  SignedStateEnvelope, PaymentChannelDaemon, track, is_stale_submission, finalize_dispute_if_due,
  submit_uncooperative_dispute, run_flow,
}
use the_open_network_x.Channels.Daemon.{watch}
use the_open_network_x.Channels.Daemon.Laws.{IsTracked, latest-tracked}

-- Some observed time is at the end of the window or after it.
abbrev pub any_due : ℕ → ℕ → List ℕ → Bool
any_due start window [] = false
any_due start window (lt ∷ lts) =
    not (ltb lt (min (start + window) u64_max)) || any_due start window lts

watch-settled :
    (d : PaymentChannelDaemon) (lts : List ℕ)
    → d.arbiter.is_settled ≡ true
    → (watch d lts).arbiter.is_settled ≡ true
unfolding watch finalize_dispute_if_due finalize_uncooperative_settlement
watch-settled d [] h = h
watch-settled d (lt ∷ lts) h =
    watch-settled (elim (finalize_dispute_if_due d lt) [ ok d' ↦ d' | err x ↦ d ]) lts
      (ground arith)

-- The watcher of an open channel whose challenge began at a given time settles its copy exactly if
-- one of the times that it observes has reached the end of the window, cut off at the largest u64.
pub watch_lem :
    (d : PaymentChannelDaemon) (start : ℕ) (lts : List ℕ)
    → d.arbiter.is_settled ≡ false
    → d.arbiter.challenge_start_lt ≡ some start
    → (watch d lts).arbiter.is_settled ≡ any_due start d.arbiter.challenge_window_lt lts
unfolding watch finalize_dispute_if_due finalize_uncooperative_settlement
watch_lem d start [] pending begun = pending
watch_lem d start (lt ∷ lts) pending begun =
    elim (Bool-cases (ltb lt (min (start + d.arbiter.challenge_window_lt) u64_max))) [
      | inl early ↦ ground (arith, watch_lem d start lts pending begun)
      | inr late ↦ ground (
        arith,
        watch-settled (record d { arbiter = record d.arbiter { is_settled = true } }) lts refl,
      )
    ]

module _ (crypto : Crypto) where
  -- The flow treats a newer state with other balances as a dispute and at once finalizes it as of the end of the
  -- window: the channel is settled at that state within the one call, no time passing for a challenge.
  pub run_flow_settles :
      (d : PaymentChannelDaemon) (e : SignedStateEnvelope) (now : ℕ)
      → IsTracked d
      → is_stale_submission d e.state ≡ true
      → IsAllowed crypto d.arbiter e.state e.sig_a e.sig_b
      → now + d.arbiter.challenge_window_lt ≤ u64_max
      → ((run_flow crypto d e now).1 ≡ ok tt)
        × ((run_flow crypto d e now).0.arbiter.is_settled ≡ true)
        × ((run_flow crypto d e now).0.arbiter.latest_state ≡ e.state)
  unfolding run_flow submit_uncooperative_dispute submit_uncooperative_state finalize_dispute_if_due
      finalize_uncooperative_settlement track is_stale_submission
  run_flow_settles d e now t stale (own, cov, signed) fits =
      let latest = latest-tracked d t in ground (arith, latest)
