-- ===== src/Consensus/Engine.antt =====
-- crates/protocol/onx-consensus/src/engine.rs: the state machine for one shard height.
pub mod Types
pub mod Run
pub mod Votes
pub mod Certificate
pub mod Invariant
pub mod Counting
pub mod Finishing
pub mod Preservation
pub mod ValidatorSet
pub mod Agreement
pub mod Progress
pub mod Safety
use the_open_network_x.Prelude.{
  ℕ, suc, ◌+◌, ◌-◌, ◌*◌, ◌%◌, Bool, true, false, not, ◌&&◌, ◌||◌, Option, none, some, List, [], ◌∷◌,
  map, get_elem?, length, null, Result, ok, err, ◌>>=◌, ◌>>◌, require, ok_or, map_err, ltb, leb,
  ◌==◌, if◌then◌else◌,
}
use the_open_network_x.Prelude.Ord.{same, bytes_ord, nat_ord}
use the_open_network_x.Prelude.BTreeMap.{BTreeMap, lookup, insert, remove, contains_key}
use the_open_network_x.Prelude.Words.{saturating_add, u32_max, u64_max}
use the_open_network_x.Primitives.Hash.{Crypto, validator_sign_v1}
use the_open_network_x.Primitives.Signature.{verify}
use the_open_network_x.DataStructures.Shard.{ShardIdent}
use the_open_network_x.Consensus.Types.{
  ConsensusError, duplicate_candidate, empty_validator_set, invalid_signature,
  duplicate_validator_signature, unknown_validator, invalid_leader, invalid_round, invalid_step,
  conflicting_proposal, ValidatorSetEntry,
}
use Types.{
  VotePhase, ConsensusStep, RoundTimeouts, ConsensusProposal, ConsensusVote, FinalizedBlock,
  ConsensusEngine, phase_ord, phase_rank, proposal_signing_bytes, vote_signing_bytes,
}

-- The loop of `new`: the map of validators and the saturated sum of their stakes.
unfoldable pub collect :
    List ValidatorSetEntry
    → BTreeMap ℕ ValidatorSetEntry
    → ℕ
    → Result ConsensusError (BTreeMap ℕ ValidatorSetEntry × ℕ)
collect [] entries total = ok (entries, total)
collect (v ∷ vs) entries total =
    let rest =
      collect vs (insert v.validator_id v entries) (saturating_add u64_max total v.actual_stake) in
    if contains_key v.validator_id entries then err duplicate_candidate else rest

unfoldable pub new :
    ShardIdent
    → ℕ
    → List ValidatorSetEntry
    → ℕ
    → RoundTimeouts
    → Result ConsensusError ConsensusEngine
new shard height validators now timeouts = do
  collected ← collect validators [] 0
  if null collected.0 || collected.1 == 0
      then err empty_validator_set
      else ok (record {
        shard = shard;
        height = height;
        validators = collected.0;
        total_stake = collected.1;
        timeouts = timeouts;
        round_started_at = now;
        round = 0;
        step = ConsensusStep.proposal;
        proposal = none;
        votes = [];
        finalized = none;
      })

-- `none` stands for the panic of `expect` on an empty validator set.
unfoldable pub leader : ConsensusEngine → Option ℕ
leader self = get_elem? (map (λ e. e.0) self.validators) (self.round % length self.validators)

-- The fold of `vote_stake` over the identifiers of a phase's votes.
unfoldable pub stake_of : BTreeMap ℕ ValidatorSetEntry → ℕ → BTreeMap ℕ ConsensusVote → ℕ
stake_of validators total [] = total
stake_of validators total ((id, vote) ∷ bucket) =
    stake_of validators
      (elim (lookup id validators) [
        | none ↦ total
        | some v ↦ saturating_add u64_max total v.actual_stake
      ])
      bucket

-- The votes of a phase; a phase with none has no entry in the map.
unfoldable pub bucket :
    VotePhase → BTreeMap VotePhase (BTreeMap ℕ ConsensusVote) → BTreeMap ℕ ConsensusVote
bucket phase votes = elim (lookup phase votes) [ none ↦ [] | some b ↦ b ]

unfoldable pub vote_stake : ConsensusEngine → VotePhase → ℕ
vote_stake self phase = stake_of self.validators 0 (bucket phase self.votes)

unfoldable pub has_supermajority : ConsensusEngine → VotePhase → Bool
has_supermajority self phase = leb (self.total_stake * 2) (vote_stake self phase * 3)

-- `proposal.map(|p| p.block_hash) == Some(hash)`
unfoldable pub proposes : Option ConsensusProposal → List ℕ → Bool
proposes none hash = false
proposes (some p) hash = same p.block_hash hash

-- The phase that the current step expects votes of.
unfoldable pub expected_phase : ConsensusStep → Option VotePhase
expected_phase ConsensusStep.proposal = none
expected_phase ConsensusStep.pre_vote = some VotePhase.pre_vote
expected_phase ConsensusStep.pre_commit = some VotePhase.pre_commit
expected_phase ConsensusStep.commit = some VotePhase.commit
expected_phase ConsensusStep.finalized = none

unfoldable pub is_finalized : ConsensusStep → Bool
is_finalized ConsensusStep.finalized = true
is_finalized _ = false

-- A call takes the state and returns the new one; a call that fails leaves it as it was.
unfoldable pub install_proposal :
    ConsensusEngine → ConsensusProposal → Result ConsensusError ConsensusEngine
install_proposal self proposal = elim self.proposal [
  | none ↦ ok (record self { proposal = some proposal; step = ConsensusStep.pre_vote })
  | some old ↦ if same old.block_hash proposal.block_hash then ok self else err conflicting_proposal
]

unfoldable pub timeout_for_step : ConsensusEngine → ℕ
timeout_for_step self = elim self.step [
  | ConsensusStep.proposal ↦ self.timeouts.proposal
  | ConsensusStep.pre_vote ↦ self.timeouts.prevote
  | ConsensusStep.pre_commit ↦ self.timeouts.precommit
  | ConsensusStep.commit ↦ self.timeouts.commit
  | ConsensusStep.finalized ↦ u64_max
]

unfoldable pub on_timeout : ConsensusEngine → ℕ → ConsensusEngine × Bool
on_timeout self now =
    if is_finalized self.step || ltb (now - self.round_started_at) (timeout_for_step self)
    then (self, false)
    else (
      record self {
        round = saturating_add u32_max self.round 1;
        round_started_at = now;
        step = ConsensusStep.proposal;
        proposal = none;
        votes = [];
      },
      true,
    )

-- The commit votes leave the map and become the evidence. Without a proposal the code panics; the
-- votes of a round are only taken while there is one.
unfoldable pub finalize : ConsensusEngine → ConsensusEngine
finalize self = elim self.proposal [
  | none ↦ self
  | some p ↦ record self {
    votes = remove VotePhase.commit self.votes;
    finalized = some (record {
      height = self.height;
      round = self.round;
      block_hash = p.block_hash;
      commit_votes = map (λ e. e.1) (bucket VotePhase.commit self.votes);
    });
    step = ConsensusStep.finalized;
  }
]

unfoldable pub advance_after_quorum : ConsensusEngine → VotePhase → ConsensusEngine
advance_after_quorum self VotePhase.pre_vote = record self { step = ConsensusStep.pre_commit }
advance_after_quorum self VotePhase.pre_commit = record self { step = ConsensusStep.commit }
advance_after_quorum self VotePhase.commit = finalize self

-- The end of `receive_vote`, for a vote of the expected phase that is new.
unfoldable pub record_vote : ConsensusEngine → ConsensusVote → ConsensusEngine
record_vote self vote = record self {
  votes =
      insert vote.phase (insert vote.validator_id vote (bucket vote.phase self.votes)) self.votes;
}

-- The same, with the phase's quorum.
unfoldable pub count_vote : ConsensusEngine → VotePhase → ConsensusVote → ConsensusEngine
count_vote self expected vote =
    if has_supermajority (record_vote self vote) expected
    then advance_after_quorum (record_vote self vote) expected
    else record_vote self vote

module _ (crypto : Crypto) where
  unfoldable pub receive_proposal :
      ConsensusEngine → ConsensusProposal → Result ConsensusError ConsensusEngine
  receive_proposal self proposal = do
    require (not (is_finalized self.step)) invalid_step
    require (proposal.height == self.height && proposal.round == self.round) invalid_round
    require (elim (leader self) [ none ↦ false | some id ↦ proposal.proposer_id == id ])
        invalid_leader
    proposer ← ok_or (lookup proposal.proposer_id self.validators) unknown_validator
    map_err (λ _. invalid_signature)
        (verify crypto proposer.public_key validator_sign_v1
          (proposal_signing_bytes self.shard proposal.height proposal.round proposal.block_hash)
          proposal.signature)
    install_proposal self proposal

  unfoldable pub receive_vote :
      ConsensusEngine → ConsensusVote → Result ConsensusError ConsensusEngine
  receive_vote self vote = do
    require (vote.height == self.height && vote.round == self.round) invalid_round
    require (proposes self.proposal vote.block_hash) conflicting_proposal
    expected ← ok_or (expected_phase self.step) invalid_step
    validator ← ok_or (lookup vote.validator_id self.validators) unknown_validator
    map_err (λ _. invalid_signature)
        (verify crypto validator.public_key validator_sign_v1
          (vote_signing_bytes self.shard vote.height vote.round vote.phase vote.block_hash)
          vote.signature)
    if phase_rank vote.phase == phase_rank expected
        then (if contains_key vote.validator_id (bucket vote.phase self.votes)
            then err duplicate_validator_signature
            else ok (count_vote self expected vote))
        else (if ltb (phase_rank vote.phase) (phase_rank expected)
            then ok self
            else err invalid_step)
