-- ===== src/Consensus/Engine/Progress.antt =====
-- How one event moves the engine: forward within a round, or into the next round.
use the_open_network_x.Prelude.{
  ℕ, ◌+◌, ◌-◌, ◌≤◌, ◌≡◌, ◌≢◌, refl, sym, subst, Option, some, none, [], ◌⊎◌, inl, inr, arith, min,
  Result-cases, Bool-cases,
}
use the_open_network_x.Prelude.Words.{u32_max}
use the_open_network_x.Primitives.Hash.{Crypto}
use the_open_network_x.Consensus.Engine.Types.{
  VotePhase, ConsensusStep, ConsensusProposal, ConsensusVote, ConsensusEngine,
}
use the_open_network_x.Consensus.Engine.{
  receive_proposal, receive_vote, on_timeout, is_finalized, expected_phase, count_vote,
  advance_after_quorum, finalize, record_vote, timeout_for_step, has_supermajority,
}
use the_open_network_x.Consensus.Engine.Run.{Event, proposed, voted, ticked, after, step}
use the_open_network_x.Consensus.Engine.Votes.{receive_vote_inv}
use the_open_network_x.Consensus.Engine.Invariant.{IsValid, Fits}
use the_open_network_x.Consensus.Engine.Preservation.{receive_proposal_inv}

abbrev pub step_rank : ConsensusStep → ℕ
step_rank ConsensusStep.proposal = 0
step_rank ConsensusStep.pre_vote = 1
step_rank ConsensusStep.pre_commit = 2
step_rank ConsensusStep.commit = 3
step_rank ConsensusStep.finalized = 4

-- The round and a proposal that is there stay, and the step goes on by one at most.
abbrev pub Advances : ConsensusEngine → ConsensusEngine → Type 0
Advances e e' =
    (e'.round ≡ e.round)
    × ((p : ConsensusProposal) → e.proposal ≡ some p → e'.proposal ≡ some p)
    × (step_rank e.step ≤ step_rank e'.step)
    × (step_rank e'.step ≤ step_rank e.step + 1)

-- The step's time is over, and the next round starts empty.
abbrev pub Restarts : ConsensusEngine → ℕ → ConsensusEngine → Type 0
Restarts e now e' =
    (e.step ≢ ConsensusStep.finalized)
    × (timeout_for_step e ≤ now - e.round_started_at)
    × (e'.round ≡ min (e.round + 1) u32_max)
    × (e'.round_started_at ≡ now)
    × (e'.step ≡ ConsensusStep.proposal)
    × (e'.proposal ≡ none)
    × (e'.votes ≡ [])

abbrev pub Moves : ConsensusEngine → Event → ConsensusEngine → Type 0
Moves e (ticked now) e' = (e' ≡ e) ⊎ Restarts e now e'
Moves e _ e' = Advances e e'

stays : (e : ConsensusEngine) → Advances e e
stays e = (refl, λ p h. h, omega arith, omega arith)

advance-Advances :
    (e : ConsensusEngine) (q : VotePhase)
    → expected_phase e.step ≡ some q
    → Advances e (advance_after_quorum e q)
unfolding advance_after_quorum finalize expected_phase
advance-Advances e q h = (ground arith, λ p hp. ground arith, ground arith, ground arith)

count_vote-Advances :
    (e : ConsensusEngine) (vote : ConsensusVote)
    → expected_phase e.step ≡ some vote.phase
    → Advances e (count_vote e vote.phase vote)
unfolding count_vote record_vote
count_vote-Advances e vote h =
    elim (Bool-cases (has_supermajority (record_vote e vote) vote.phase)) [
      | inl quorum ↦ rw quorum (advance-Advances (record_vote e vote) vote.phase h)
      | inr short ↦ rw short (stays e)
    ]

module _ (crypto : Crypto) where
  voted-Advances :
      (e : ConsensusEngine) (vote : ConsensusVote)
      → Advances e (after e (receive_vote crypto e vote))
  voted-Advances e vote = elim (Result-cases (receive_vote crypto e vote)) [
    | inl (e', h) ↦
        subst (λ r. Advances e (after e r)) (sym h)
          (elim (receive_vote_inv crypto e vote h) [
            | inl late ↦ subst (Advances e) (sym late) (stays e)
            | inr (a, counted) ↦
                subst (Advances e) (sym counted) (count_vote-Advances e vote a.expected)
          ])
    | inr (x, h) ↦ subst (λ r. Advances e (after e r)) (sym h) (stays e)
  ]

  opening :
      (s : ConsensusStep) (o : Option ConsensusProposal)
      → Fits s o
      → o ≡ none
      → s ≡ ConsensusStep.proposal
  opening ConsensusStep.proposal o f h = refl
  opening ConsensusStep.pre_vote o f h = absurd (ground (arith, f.1))
  opening ConsensusStep.pre_commit o f h = absurd (ground (arith, f.1))
  opening ConsensusStep.commit o f h = absurd (ground (arith, f.1))
  opening ConsensusStep.finalized o f h = absurd (ground (arith, f.1))

  proposed-Advances :
      (e : ConsensusEngine) (p : ConsensusProposal)
      → IsValid crypto e
      → Advances e (after e (receive_proposal crypto e p))
  proposed-Advances e p v = elim (Result-cases (receive_proposal crypto e p)) [
    | inl (e', h) ↦
        subst (λ r. Advances e (after e r)) (sym h)
          (elim (receive_proposal_inv crypto e p h) [
            | inl again ↦ subst (Advances e) (sym again) (stays e)
            | inr (ep, _, opened) ↦
                let at = opening e.step e.proposal v.fits ep in
                subst (Advances e) (sym opened)
                  (refl, λ q hq. absurd (ground arith), ground arith, ground arith)
          ])
    | inr (x, h) ↦ subst (λ r. Advances e (after e r)) (sym h) (stays e)
  ]

  -- From a valid state a message keeps the round and the round's proposal and moves the step on by at
  -- most one place. A clock tick changes nothing, or, when the engine is not final and the step's time
  -- is over, it opens the next round (the last round number repeats) with no proposal and no votes.
  pub step-Moves :
      (e : ConsensusEngine) (x : Event) → IsValid crypto e → Moves e x (step crypto e x)
  unfolding step on_timeout is_finalized
  step-Moves e (proposed p) v = proposed-Advances e p v
  step-Moves e (voted vote) v = voted-Advances e vote
  step-Moves e (ticked now) v = ground arith
