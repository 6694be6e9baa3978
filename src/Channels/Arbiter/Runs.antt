-- ===== src/Channels/Arbiter/Runs.antt =====
-- What holds of an arbiter whatever calls reach it.
use the_open_network_x.Prelude.{
  ℕ, ◌+◌, ◌≤◌, ◌<◌, ◌≡◌, refl, sym, subst, Bool, true, false, Option, none, some, List, [], ◌∷◌,
  Result, ok, err, ◌⊎◌, inl, inr, arith, Result-cases, All,
}
use the_open_network_x.Prelude.Ord.{same, same→eq, bytes_ord}
use the_open_network_x.Prelude.Words.{u128_max}
use the_open_network_x.Primitives.FixedBytes.{Uint256}
use the_open_network_x.Primitives.Hash.{Crypto}
use the_open_network_x.Primitives.Signature.{PublicKey, Signature}
use the_open_network_x.DataStructures.Address.{FullAddress}
use the_open_network_x.Channels.State.{ChannelState, ChannelError}
use the_open_network_x.Channels.Arbiter.{
  PaymentChannelArbiter, initial_state, new, within_deposit, verify_dual_signatures,
  cooperative_settle, submit_uncooperative_state, finalize_uncooperative_settlement,
}
use the_open_network_x.Channels.Arbiter.Laws.{
  within_deposit_lem, finalize_inv, IsSigned, settle_inv, submit_inv,
}

pub data Call : Type 0 where
  settle : ChannelState → Signature → Signature → Call
  submit : ChannelState → Signature → Signature → ℕ → Call
  finalize : ℕ → Call

-- A call that fails leaves the arbiter as it was.
abbrev pub after :
    PaymentChannelArbiter → Result ChannelError PaymentChannelArbiter → PaymentChannelArbiter
after a (ok a') = a'
after a (err x) = a

abbrev pub IsDispute : Call → Type 0
IsDispute (settle s sig_a sig_b) = ⊥
IsDispute _ = Unit {0}

module _ (crypto : Crypto) where
  unfoldable pub step : PaymentChannelArbiter → Call → PaymentChannelArbiter
  step a (settle s sig_a sig_b) = after a (cooperative_settle crypto a s sig_a sig_b)
  step a (submit s sig_a sig_b now) =
      after a (submit_uncooperative_state crypto a s sig_a sig_b now)
  step a (finalize now) = after a (finalize_uncooperative_settlement a now)

  unfoldable pub run : PaymentChannelArbiter → List Call → PaymentChannelArbiter
  run a [] = a
  run a (c ∷ cs) = run (step a c) cs

  -- Nothing has been agreed yet.
  abbrev pub IsUntouched : PaymentChannelArbiter → Type 0
  IsUntouched a =
      (a.latest_state ≡ initial_state a.channel_id a.total_deposit)
      × (a.challenge_start_lt ≡ none)
      × (a.is_settled ≡ false)

  pub record IsSound (a : PaymentChannelArbiter) : Type 0 where
    pub own_channel : a.latest_state.channel_id ≡ a.channel_id
    pub covered : within_deposit a.total_deposit a.latest_state ≡ true
    pub agreed : IsUntouched a ⊎ IsSigned crypto a a.latest_state

  adopt-IsSound :
      (a : PaymentChannelArbiter) (s : ChannelState) (sig_a sig_b : Signature) (o : Option ℕ)
      (b : Bool)
      → same s.channel_id a.channel_id ≡ true
      → within_deposit a.total_deposit s ≡ true
      → verify_dual_signatures crypto a s sig_a sig_b ≡ ok tt
      → IsSound (record a { latest_state = s; challenge_start_lt = o; is_settled = b })
  unfolding verify_dual_signatures
  adopt-IsSound a s sig_a sig_b o b own cov signed = record {
    own_channel = same→eq s.channel_id a.channel_id own;
    covered = cov;
    agreed = inr (sig_a, sig_b, signed);
  }

  finished-IsSound :
      (a : PaymentChannelArbiter) (start : ℕ)
      → a.challenge_start_lt ≡ some start
      → IsSound a
      → IsSound (record a { is_settled = true })
  unfolding verify_dual_signatures
  finished-IsSound a start begun v = record {
    own_channel = v.own_channel;
    covered = v.covered;
    agreed = elim v.agreed [ inl (_, idle, _) ↦ absurd (ground arith) | inr signed ↦ inr signed ];
  }

  step-IsSound : (a : PaymentChannelArbiter) (c : Call) → IsSound a → IsSound (step a c)
  unfolding step
  step-IsSound a (settle s sig_a sig_b) v =
      elim (Result-cases (cooperative_settle crypto a s sig_a sig_b)) [
        | inl (a', h) ↦
            let ((own, cov, signed), a_is) = settle_inv crypto a s sig_a sig_b h in
            rw (h, a_is) (adopt-IsSound a s sig_a sig_b a.challenge_start_lt true own cov signed)
        | inr (x, h) ↦ rw h v
      ]
  step-IsSound a (submit s sig_a sig_b now) v =
      elim (Result-cases (submit_uncooperative_state crypto a s sig_a sig_b now)) [
        | inl (a', h) ↦
            let ((own, cov, signed), _, a_is) = submit_inv crypto a s sig_a sig_b now h in
            rw (h, a_is) (adopt-IsSound a s sig_a sig_b (some now) a.is_settled own cov signed)
        | inr (x, h) ↦ rw h v
      ]
  step-IsSound a (finalize now) v = elim (Result-cases (finalize_uncooperative_settlement a now)) [
    | inl (a', h) ↦
        let (start, begun, _, a_is) = finalize_inv a now h in
        rw (h, a_is) (finished-IsSound a start begun v)
    | inr (x, h) ↦ rw h v
  ]

  run-IsSound : (a : PaymentChannelArbiter) (cs : List Call) → IsSound a → IsSound (run a cs)
  unfolding run
  run-IsSound a [] v = v
  run-IsSound a (c ∷ cs) v = run-IsSound (step a c) cs (step-IsSound a c v)

  step-deposit : (a : PaymentChannelArbiter) (c : Call) → (step a c).total_deposit ≡ a.total_deposit
  unfolding step cooperative_settle submit_uncooperative_state finalize_uncooperative_settlement
  step-deposit a (settle s sig_a sig_b) = ground arith
  step-deposit a (submit s sig_a sig_b now) = ground arith
  step-deposit a (finalize now) = ground arith

  run-deposit :
      (a : PaymentChannelArbiter) (cs : List Call) → (run a cs).total_deposit ≡ a.total_deposit
  unfolding run
  run-deposit a [] = refl
  run-deposit a (c ∷ cs) = rw (run-deposit (step a c) cs, step-deposit a c)

  new-IsSound :
      (id : Uint256) (a b : FullAddress) (ka kb : PublicKey) (deposit window : ℕ)
      → deposit ≤ u128_max
      → IsSound (new id a b ka kb deposit window)
  unfolding new within_deposit
  new-IsSound id a b ka kb deposit window h = record {
    own_channel = refl;
    covered = ground arith;
    agreed = inl (refl, refl, refl);
  }

  fresh-deposit :
      (id : Uint256) (pa pb : FullAddress) (ka kb : PublicKey) (deposit window : ℕ) (cs : List Call)
      → (run (new id pa pb ka kb deposit window) cs).total_deposit ≡ deposit
  unfolding new
  fresh-deposit id pa pb ka kb deposit window cs =
      run-deposit (new id pa pb ka kb deposit window) cs

  abbrev pub IsAgreed : ℕ → PaymentChannelArbiter → Type 0
  IsAgreed deposit a =
      (a.latest_state.balance_party_a + a.latest_state.balance_party_b ≤ deposit)
      × (a.latest_state.channel_id ≡ a.channel_id)
      × (IsUntouched a ⊎ IsSigned crypto a a.latest_state)

  -- Whatever calls reach the arbiter of a new channel with a deposit below the largest u128: the two
  -- balances never exceed the deposit, the state is one of this channel, and it carries valid signatures of
  -- both parties unless it is still the initial one, in which case no challenge runs and nothing is settled.
  pub run-IsAgreed :
      (id : Uint256) (pa pb : FullAddress) (ka kb : PublicKey) (deposit window : ℕ) (cs : List Call)
      → deposit < u128_max
      → IsAgreed deposit (run (new id pa pb ka kb deposit window) cs)
  run-IsAgreed id pa pb ka kb deposit window cs small =
      let fresh = new id pa pb ka kb deposit window in
      let v = run-IsSound fresh cs (new-IsSound id pa pb ka kb deposit window (omega arith)) in
      let locked = fresh-deposit id pa pb ka kb deposit window cs in
      (
        within_deposit_lem deposit (run fresh cs).latest_state small
            (subst (λ d. within_deposit d (run fresh cs).latest_state ≡ true) locked v.covered),
        v.own_channel,
        v.agreed,
      )

  step-sequence :
      (a : PaymentChannelArbiter) (c : Call)
      → IsDispute c
      → a.latest_state.sequence ≤ (step a c).latest_state.sequence
  unfolding step finalize_uncooperative_settlement
  step-sequence a (settle s sig_a sig_b) d = absurd d
  step-sequence a (submit s sig_a sig_b now) d =
      elim (Result-cases (submit_uncooperative_state crypto a s sig_a sig_b now)) [
        | inl (a', h) ↦
            let (_, newer, a_is) = submit_inv crypto a s sig_a sig_b now h in
            rw (h, a_is) (omega (arith, newer))
        | inr (x, h) ↦ rw h (omega arith)
      ]
  step-sequence a (finalize now) d = ground arith

  run-sequence :
      (a : PaymentChannelArbiter) (cs : List Call)
      → All IsDispute cs
      → a.latest_state.sequence ≤ (run a cs).latest_state.sequence
  unfolding run
  run-sequence a [] d = omega arith
  run-sequence a (c ∷ cs) d = omega (arith, step-sequence a c d.0, run-sequence (step a c) cs d.1)

  -- Once a submitted state is accepted, no dispute call can put an older one in its place: after any
  -- further submissions and finalizations the sequence number is at least that of the submission.
  pub submit_outlasts :
      (a : PaymentChannelArbiter) (s : ChannelState) (sig_a sig_b : Signature) (now : ℕ)
      (cs : List Call) {a' : PaymentChannelArbiter}
      → submit_uncooperative_state crypto a s sig_a sig_b now ≡ ok a'
      → All IsDispute cs
      → (a.latest_state.sequence < s.sequence) × (s.sequence ≤ (run a' cs).latest_state.sequence)
  submit_outlasts a s sig_a sig_b now cs {a'} h d =
      let (_, newer, a_is) = submit_inv crypto a s sig_a sig_b now h in
      (
        newer,
        subst (λ b. s.sequence ≤ (run b cs).latest_state.sequence) (sym a_is)
            (run-sequence (record a { latest_state = s; challenge_start_lt = some now }) cs d),
      )
