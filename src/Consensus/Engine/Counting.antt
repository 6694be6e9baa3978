-- ===== src/Consensus/Engine/Counting.antt =====
-- Recording a vote that `receive_vote` accepts keeps the invariant.
use the_open_network_x.Prelude.{◌≡◌, ◌≢◌, Option, some, none, arith}
use the_open_network_x.Prelude.Ord.{bytes_ord, nat_ord}
use the_open_network_x.Prelude.BTreeMap.{insert}
use the_open_network_x.Primitives.Hash.{Crypto}
use the_open_network_x.Consensus.Engine.Types.{
  VotePhase, ConsensusStep, ConsensusVote, ConsensusEngine, FinalizedBlock, phase_ord,
}
use the_open_network_x.Consensus.Engine.{
  bucket, has_supermajority, vote_stake, record_vote, expected_phase,
}
use the_open_network_x.Consensus.Engine.Votes.{IsAccepted, bucket-insert_ne}
use the_open_network_x.Consensus.Engine.Invariant.{
  Quorums, Final, IsValid, record_vote-Tally, record_vote-IsSorted,
}

-- A vote of one phase leaves the quorums of the others alone.
has_supermajority-record_vote :
    (e : ConsensusEngine) (vote : ConsensusVote) (q : VotePhase)
    → q ≢ vote.phase
    → has_supermajority (record_vote e vote) q ≡ has_supermajority e q
unfolding has_supermajority vote_stake record_vote
has_supermajority-record_vote e vote q n = rw (
    bucket-insert_ne q vote.phase (insert vote.validator_id vote (bucket vote.phase e.votes))
      e.votes n)

record_vote-Quorums :
    (s : ConsensusStep) (e : ConsensusEngine) (vote : ConsensusVote)
    → expected_phase s ≡ some vote.phase
    → Quorums s e
    → Quorums s (record_vote e vote)
unfolding expected_phase
record_vote-Quorums ConsensusStep.proposal e vote h q = tt
record_vote-Quorums ConsensusStep.pre_vote e vote h q = tt
record_vote-Quorums ConsensusStep.pre_commit e vote h q =
    ground (arith, has_supermajority-record_vote e vote VotePhase.pre_vote)
record_vote-Quorums ConsensusStep.commit e vote h q = ground (
  arith,
  has_supermajority-record_vote e vote VotePhase.pre_vote,
  has_supermajority-record_vote e vote VotePhase.pre_commit,
)
record_vote-Quorums ConsensusStep.finalized e vote h q = absurd (ground arith)

module _ (crypto : Crypto) where
  -- Before the last step there is no block.
  pub unfinished :
      (e e' : ConsensusEngine) (s : ConsensusStep) (o : Option FinalizedBlock) (q : VotePhase)
      → expected_phase s ≡ some q
      → Final crypto e s o
      → Final crypto e' s o × (o ≡ none)
  unfolding expected_phase
  unfinished e e' ConsensusStep.proposal o q h f = (f, f)
  unfinished e e' ConsensusStep.pre_vote o q h f = (f, f)
  unfinished e e' ConsensusStep.pre_commit o q h f = (f, f)
  unfinished e e' ConsensusStep.commit o q h f = (f, f)
  unfinished e e' ConsensusStep.finalized o q h f = absurd (ground arith)

  pub record_vote-IsValid :
      (e : ConsensusEngine) (vote : ConsensusVote)
      → IsAccepted crypto e vote
      → IsValid crypto e
      → IsValid crypto (record_vote e vote)
  unfolding record_vote
  record_vote-IsValid e vote a v = record {
    tallied = record_vote-Tally crypto e vote a v.tallied;
    sorted = record_vote-IsSorted crypto e vote v.sorted;
    quorums = record_vote-Quorums e.step e vote a.expected v.quorums;
    fits = v.fits;
    final = (unfinished e (record_vote e vote) e.step e.finalized vote.phase a.expected v.final).0;
  }
