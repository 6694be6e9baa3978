-- ===== src/Channels/Arbiter/Laws.antt =====
-- What the arbiter's calls accept, and what they then change.
use the_open_network_x.Prelude.{
  ℕ, ◌+◌, ◌≤◌, ◌<◌, ◌≡◌, true, some, ok, arith, min, Option-cases, Result-cases, inl, inr,
}
use the_open_network_x.Prelude.Ord.{same, bytes_ord}
use the_open_network_x.Prelude.Words.{u64_max, u128_max}
use the_open_network_x.Primitives.Hash.{Crypto}
use the_open_network_x.Primitives.Signature.{Signature}
use the_open_network_x.Channels.State.{ChannelState}
use the_open_network_x.Channels.Arbiter.{
  PaymentChannelArbiter, within_deposit, verify_dual_signatures, cooperative_settle,
  submit_uncooperative_state, finalize_uncooperative_settlement,
}

-- The deposit covers an accepted allocation, as long as the deposit is below the largest u128.
pub within_deposit_lem :
    (deposit : ℕ) (s : ChannelState)
    → deposit < u128_max
    → within_deposit deposit s ≡ true
    → s.balance_party_a + s.balance_party_b ≤ deposit
unfolding within_deposit
within_deposit_lem deposit s small h = ground arith

pub finalize_inv :
    (a : PaymentChannelArbiter) (now : ℕ) {a' : PaymentChannelArbiter}
    → finalize_uncooperative_settlement a now ≡ ok a'
    → (start : ℕ) × (a.challenge_start_lt ≡ some start)
      × (min (start + a.challenge_window_lt) u64_max ≤ now)
      × (a' ≡ record a { is_settled = true })
unfolding finalize_uncooperative_settlement
finalize_inv a now h = elim (Option-cases a.challenge_start_lt) [
  | inl idle ↦ absurd (ground arith)
  | inr (start, begun) ↦ (start, begun, ground arith, ground arith)
]

module _ (crypto : Crypto) where
  -- A state with valid signatures of both parties.
  abbrev pub IsSigned : PaymentChannelArbiter → ChannelState → Type 0
  IsSigned a s =
      (sig_a : Signature) × (sig_b : Signature) × (verify_dual_signatures crypto a s sig_a sig_b
        ≡ ok tt)

  abbrev pub IsAllowed : PaymentChannelArbiter → ChannelState → Signature → Signature → Type 0
  IsAllowed a s sig_a sig_b =
      (same s.channel_id a.channel_id ≡ true)
      × (within_deposit a.total_deposit s ≡ true)
      × (verify_dual_signatures crypto a s sig_a sig_b ≡ ok tt)

  pub settle_inv :
      (a : PaymentChannelArbiter) (s : ChannelState) (sig_a sig_b : Signature)
      {a' : PaymentChannelArbiter}
      → cooperative_settle crypto a s sig_a sig_b ≡ ok a'
      → IsAllowed a s sig_a sig_b × (a' ≡ record a { latest_state = s; is_settled = true })
  unfolding cooperative_settle
  settle_inv a s sig_a sig_b h =
      elim (Result-cases (verify_dual_signatures crypto a s sig_a sig_b)) [
        | inl (u, valid) ↦ ((ground arith, ground arith, ground arith), ground arith)
        | inr (x, invalid) ↦ absurd (ground arith)
      ]

  pub submit_inv :
      (a : PaymentChannelArbiter) (s : ChannelState) (sig_a sig_b : Signature) (now : ℕ)
      {a' : PaymentChannelArbiter}
      → submit_uncooperative_state crypto a s sig_a sig_b now ≡ ok a'
      → IsAllowed a s sig_a sig_b
        × (a.latest_state.sequence < s.sequence)
        × (a' ≡ record a { latest_state = s; challenge_start_lt = some now })
  unfolding submit_uncooperative_state
  submit_inv a s sig_a sig_b now h =
      elim (Result-cases (verify_dual_signatures crypto a s sig_a sig_b)) [
        | inl (u, valid) ↦ ((ground arith, ground arith, ground arith), ground arith, ground arith)
        | inr (x, invalid) ↦ absurd (ground arith)
      ]
