-- ===== src/Channels/Daemon/Laws.antt =====
-- The daemon agrees with its arbiter, and the newest signed state wins in whatever order states come.
use the_open_network_x.Prelude.{
  ◌≤◌, ◌<◌, ◌≡◌, subst, ap, ◌∙◌, some, [], ok, err, ◌↔◌, inl, inr, arith, Result-cases,
}
use the_open_network_x.Prelude.Ord.{bytes_ord}
use the_open_network_x.Prelude.BTreeMap.{lookup, lookup-insert_self, insert-insert_self}
use the_open_network_x.Primitives.Hash.{Crypto}
use the_open_network_x.Channels.State.{ChannelState, non_increasing_sequence}
use the_open_network_x.Channels.Arbiter.{PaymentChannelArbiter, verify_dual_signatures}
use the_open_network_x.Channels.Arbiter.Laws.{IsAllowed}
use the_open_network_x.Channels.Daemon.{
  SignedStateEnvelope, PaymentChannelDaemon, new, latest_state, track, exchange_signed_state,
}

-- The map holds the arbiter's latest state.
abbrev pub IsTracked : PaymentChannelDaemon → Type 0
IsTracked d = lookup d.arbiter.channel_id d.latest_by_channel ≡ some d.arbiter.latest_state

pub latest-tracked :
    (d : PaymentChannelDaemon) → IsTracked d → latest_state d ≡ d.arbiter.latest_state
unfolding latest_state
latest-tracked d t = ground arith

pub track-IsTracked :
    (d : PaymentChannelDaemon) (a : PaymentChannelArbiter)
    → a.channel_id ≡ d.arbiter.channel_id
    → IsTracked (track d a)
unfolding track
track-IsTracked d a same_id =
    rw same_id (lookup-insert_self d.arbiter.channel_id a.latest_state d.latest_by_channel)

pub new-IsTracked : (a : PaymentChannelArbiter) → IsTracked (new a)
unfolding new
new-IsTracked a = lookup-insert_self a.channel_id a.latest_state []

module _ (crypto : Crypto) where
  pub exchange_inv :
      (d : PaymentChannelDaemon) (e : SignedStateEnvelope) {d' : PaymentChannelDaemon}
      → exchange_signed_state crypto d e ≡ ok d'
      → IsAllowed crypto d.arbiter e.state e.sig_a e.sig_b
        × ((latest_state d).sequence < e.state.sequence)
        × (d' ≡ track d (record d.arbiter { latest_state = e.state }))
  unfolding exchange_signed_state
  exchange_inv d e h =
      elim (Result-cases (verify_dual_signatures crypto d.arbiter e.state e.sig_a e.sig_b)) [
        | inl (u, valid) ↦ ((ground arith, ground arith, ground arith), ground arith, ground arith)
        | inr (x, invalid) ↦ absurd (ground arith)
      ]

  exchange_ok :
      (d : PaymentChannelDaemon) (e : SignedStateEnvelope)
      → IsAllowed crypto d.arbiter e.state e.sig_a e.sig_b
      → (latest_state d).sequence < e.state.sequence
      → exchange_signed_state crypto d e
        ≡ ok (track d (record d.arbiter { latest_state = e.state }))
  unfolding exchange_signed_state
  exchange_ok d e (own, cov, valid) newer = ground arith

  exchange_late :
      (d : PaymentChannelDaemon) (e : SignedStateEnvelope)
      → IsAllowed crypto d.arbiter e.state e.sig_a e.sig_b
      → e.state.sequence ≤ (latest_state d).sequence
      → exchange_signed_state crypto d e ≡ err non_increasing_sequence
  unfolding exchange_signed_state
  exchange_late d e (own, cov, valid) older = ground arith

  track-track :
      (d : PaymentChannelDaemon) (s s' : ChannelState)
      → track
          (track d (record d.arbiter { latest_state = s }))
          (record (track d (record d.arbiter { latest_state = s })).arbiter { latest_state = s' })
        ≡ track d (record d.arbiter { latest_state = s' })
  unfolding track
  track-track d s s' =
      ap (λ m. record { arbiter = record d.arbiter { latest_state = s' }; latest_by_channel = m })
        (insert-insert_self d.arbiter.channel_id s' s d.latest_by_channel)

  track-latest :
      (d : PaymentChannelDaemon) (s : ChannelState)
      → latest_state (track d (record d.arbiter { latest_state = s })) ≡ s
  unfolding latest_state track
  track-latest d s = ground (arith, lookup-insert_self d.arbiter.channel_id s d.latest_by_channel)

  IsAllowed-after :
      (d : PaymentChannelDaemon) (s : ChannelState) (e : SignedStateEnvelope)
      → IsAllowed crypto
          (track d (record d.arbiter { latest_state = s })).arbiter
          e.state
          e.sig_a
          e.sig_b
        ↔ IsAllowed crypto d.arbiter e.state e.sig_a e.sig_b
  unfolding track verify_dual_signatures
  IsAllowed-after d s e = (λ h. h, λ h. h)

  -- The newest signed state wins whatever the order of arrival: if an envelope and then a second one
  -- are exchanged, then the second alone leads to the same daemon, and the first is refused after it.
  pub exchange_order :
      (d : PaymentChannelDaemon) (e f : SignedStateEnvelope) {d' d'' : PaymentChannelDaemon}
      → exchange_signed_state crypto d e ≡ ok d'
      → exchange_signed_state crypto d' f ≡ ok d''
      → (exchange_signed_state crypto d f ≡ ok d'')
        × (exchange_signed_state crypto d'' e ≡ err non_increasing_sequence)
  exchange_order d e f {d'} {d''} h k =
      let (allowed, newer, d'_is) = exchange_inv d e h in
      let (allowed', newer', d''_is) =
        exchange_inv (track d (record d.arbiter { latest_state = e.state })) f
          (subst (λ x. exchange_signed_state crypto x f ≡ ok d'') d'_is k) in
      let between : e.state.sequence < f.state.sequence =
        subst (λ s. s.sequence < f.state.sequence) (track-latest d e.state) newer' in
      let final_is : d'' ≡ track d (record d.arbiter { latest_state = f.state }) =
        d''_is ∙ track-track d e.state f.state in
      (
        rw final_is (
            exchange_ok d f ((IsAllowed-after d e.state f).0 allowed')
              (omega (arith, newer, between))),
        rw final_is (
            exchange_late (track d (record d.arbiter { latest_state = f.state })) e
              ((IsAllowed-after d f.state e).1 allowed)
              (rw (track-latest d f.state) (omega (arith, between)))),
      )
