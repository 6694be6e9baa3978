-- ===== src/Consensus/Engine/Invariant.antt =====
-- The invariant of the engine, and that every call keeps it.
use the_open_network_x.Prelude.{◌≡◌, refl, sym, true, Option, some, none, [], All, arith}
use the_open_network_x.Prelude.Ord.{same→eq, bytes_ord, nat_ord}
use the_open_network_x.Prelude.BTreeMap.{insert}
use the_open_network_x.Prelude.BTreeMap.Sorted.{IsSorted, insert-IsSorted, All-insert}
use the_open_network_x.Primitives.Hash.{Crypto}
use the_open_network_x.Consensus.Engine.Types.{
  VotePhase, ConsensusStep, ConsensusProposal, ConsensusVote, ConsensusEngine, FinalizedBlock,
  phase_ord,
}
use the_open_network_x.Consensus.Engine.{bucket, has_supermajority, record_vote, proposes}
use the_open_network_x.Consensus.Engine.Votes.{
  Bucket, IsSigned, IsAccepted, bucket-insert_self, bucket-insert_ne, VotePhase-discrete,
}
use the_open_network_x.Consensus.Engine.Certificate.{Counted, Certificate}

-- The phases whose quorum the step has behind it.
abbrev pub Quorums : ConsensusStep → ConsensusEngine → Type 0
Quorums ConsensusStep.proposal e = Unit {0}
Quorums ConsensusStep.pre_vote e = Unit {0}
Quorums ConsensusStep.pre_commit e = has_supermajority e VotePhase.pre_vote ≡ true
Quorums ConsensusStep.commit e =
    (has_supermajority e VotePhase.pre_vote ≡ true)
    × (has_supermajority e VotePhase.pre_commit ≡ true)
Quorums ConsensusStep.finalized e =
    (has_supermajority e VotePhase.pre_vote ≡ true)
    × (has_supermajority e VotePhase.pre_commit ≡ true)

-- The proposal is there exactly from the pre-vote on.
abbrev pub Fits : ConsensusStep → Option ConsensusProposal → Type 0
Fits ConsensusStep.proposal o = o ≡ none
Fits _ o = (p : ConsensusProposal) × (o ≡ some p)

module _ (crypto : Crypto) where
  -- Without a proposal there is no vote; with one, each vote is for its block.
  abbrev pub Tally : ConsensusEngine → VotePhase → Option ConsensusProposal → Bucket → Type 0
  Tally e q none b = b ≡ []
  Tally e q (some p) b = All (Counted crypto e q p.block_hash) b

  insert-Tally :
      (e : ConsensusEngine) (vote : ConsensusVote) (o : Option ConsensusProposal) (b : Bucket)
      → vote.height ≡ e.height
      → vote.round ≡ e.round
      → proposes o vote.block_hash ≡ true
      → IsSigned crypto e vote
      → Tally e vote.phase o b
      → Tally e vote.phase o (insert vote.validator_id vote b)
  unfolding proposes
  insert-Tally e vote none b hh hr hp signed t = absurd (ground arith)
  insert-Tally e vote (some p) b hh hr hp signed t =
      All-insert (Counted crypto e vote.phase p.block_hash) vote.validator_id vote b
        (refl, refl, hh, hr, sym (same→eq p.block_hash vote.block_hash hp), signed) t

  pub record_vote-Tally :
      (e : ConsensusEngine) (vote : ConsensusVote)
      → IsAccepted crypto e vote
      → ((q : VotePhase) → Tally e q e.proposal (bucket q e.votes))
      → (q : VotePhase) → Tally e q e.proposal (bucket q (record_vote e vote).votes)
  unfolding record_vote
  record_vote-Tally e vote a t q = elim (VotePhase-discrete q vote.phase) [
    | yes now ↦
        rw (now, bucket-insert_self vote.phase _ e.votes)
          (insert-Tally e vote e.proposal (bucket vote.phase e.votes) a.height_is a.round_is
            a.proposed a.signed (t vote.phase))
    | no other ↦ rw (bucket-insert_ne q vote.phase _ e.votes other) (t q)
  ]

  pub record_vote-IsSorted :
      (e : ConsensusEngine) (vote : ConsensusVote)
      → ((q : VotePhase) → IsSorted (bucket q e.votes))
      → (q : VotePhase) → IsSorted (bucket q (record_vote e vote).votes)
  unfolding record_vote
  record_vote-IsSorted e vote s q = elim (VotePhase-discrete q vote.phase) [
    | yes now ↦
        rw (now, bucket-insert_self vote.phase _ e.votes)
          (insert-IsSorted vote.validator_id vote (bucket vote.phase e.votes) (s vote.phase))
    | no other ↦ rw (bucket-insert_ne q vote.phase _ e.votes other) (s q)
  ]

  -- The finalized block is there exactly at the last step, with its certificate, and is the block
  -- of the round's proposal.
  abbrev pub Final : ConsensusEngine → ConsensusStep → Option FinalizedBlock → Type 0
  Final e ConsensusStep.finalized none = ⊥
  Final e ConsensusStep.finalized (some fb) =
      Certificate crypto e fb × (proposes e.proposal fb.block_hash ≡ true)
  Final e _ o = o ≡ none

  pub record IsValid (e : ConsensusEngine) : Type 0 where
    pub tallied : (q : VotePhase) → Tally e q e.proposal (bucket q e.votes)
    pub sorted : (q : VotePhase) → IsSorted (bucket q e.votes)
    pub quorums : Quorums e.step e
    pub fits : Fits e.step e.proposal
    pub final : Final e e.step e.finalized
