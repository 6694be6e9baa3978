-- ===== src/Consensus/Examples.antt =====
-- The consensus theorems at concrete inputs: a set of two validators and one round of one block.
use the_open_network_x.Prelude.{
  ℕ, ◌+◌, ◌*◌, ◌^◌, ◌/◌, ◌≤◌, ◌≡◌, refl, min, take, map, length, true, some, none, List, [], ◌∷◌,
  ok, arith,
}
use the_open_network_x.Prelude.Ord.{nat_ord}
use the_open_network_x.Prelude.Int.{pos}
use the_open_network_x.Prelude.BTreeMap.{lookup, insert, remove, contains_key}
use the_open_network_x.Prelude.Sort.{sort_by, sum_of, IsOrdered}
use the_open_network_x.Primitives.Hash.{Crypto}
use the_open_network_x.Primitives.Signature.{verify}
use the_open_network_x.DataStructures.Shard.{ShardIdent}
use the_open_network_x.Consensus.Types.{
  CandidateValidatorSpec, ValidatorSetEntry, BlockSignatureWithDepth,
}
use the_open_network_x.Consensus.Engine.Types.{
  VotePhase, ConsensusStep, RoundTimeouts, ConsensusProposal, ConsensusVote, FinalizedBlock,
  ConsensusEngine,
}
use the_open_network_x.Consensus.Engine.{
  new, collect, leader, receive_proposal, receive_vote, has_supermajority, proposes, vote_stake,
  stake_of, bucket, install_proposal, record_vote, count_vote, advance_after_quorum, finalize,
  expected_phase, is_finalized,
}
use the_open_network_x.Consensus.Engine.Run.{Event, proposed, voted, ticked, step, run}
use the_open_network_x.Consensus.Engine.Certificate.{Certificate, by_validator}
use the_open_network_x.Consensus.Engine.Invariant.{IsValid}
use the_open_network_x.Consensus.Engine.Preservation.{step-IsValid, new-IsValid}
use the_open_network_x.Consensus.Engine.Agreement.{shared_stake}
use the_open_network_x.Consensus.Engine.Progress.{Moves, step-Moves}
use the_open_network_x.Consensus.Engine.Safety.{run-finalized, finalized-Certificate, agreement}
use the_open_network_x.Consensus.Stake.{calculate_actual_stake, BftQuorumTracker}
use the_open_network_x.Consensus.Stake.Laws.{calculate_actual_stake_lem}
use the_open_network_x.Consensus.Election.{
  ElectionConfig, ElectionResult, check_candidates, cmp_candidates, run_election, allocate,
  locked_stake, entry_of, stake_at_index,
}
use the_open_network_x.Consensus.Election.Laws.{run_election_lem}

-- Every signature is taken to be valid, and a hash is the bytes themselves.
abbrev always_valid : Crypto
always_valid = record {
  sha256 = λ bs. bs;
  is_canonical_key = λ k. true;
  verify_strict = λ k m s. true;
}

abbrev shard : ShardIdent
shard = record { workchain_id = pos 0; shard_prefix_ident = 2 ^ 63 }

abbrev first_validator : ValidatorSetEntry
first_validator = record { validator_id = 0; public_key = 1 ∷ []; actual_stake = 10 }

abbrev second_validator : ValidatorSetEntry
second_validator = record { validator_id = 1; public_key = 2 ∷ []; actual_stake = 20 }

abbrev two_validators : List ValidatorSetEntry
two_validators = first_validator ∷ second_validator ∷ []

abbrev timeouts : RoundTimeouts
timeouts = record { proposal = 5; prevote = 5; precommit = 5; commit = 5 }

abbrev opened_at : ℕ → ConsensusEngine
opened_at now = record {
  shard = shard;
  height = 7;
  validators = (0, first_validator) ∷ (1, second_validator) ∷ [];
  total_stake = 30;
  timeouts = timeouts;
  round_started_at = now;
  round = 0;
  step = ConsensusStep.proposal;
  proposal = none;
  votes = [];
  finalized = none;
}

abbrev block : ConsensusProposal
block = record { height = 7; round = 0; block_hash = 9 ∷ []; proposer_id = 0; signature = [] }

abbrev vote_of : ℕ → VotePhase → ConsensusVote
vote_of id q = record {
  height = 7;
  round = 0;
  phase = q;
  block_hash = 9 ∷ [];
  validator_id = id;
  signature = [];
}

-- The second validator alone holds two thirds of the stake.
abbrev one_round : List Event
one_round =
    proposed block
    ∷ voted (vote_of 1 VotePhase.pre_vote)
    ∷ voted (vote_of 1 VotePhase.pre_commit)
    ∷ voted (vote_of 1 VotePhase.commit)
    ∷ []

abbrev final_block : FinalizedBlock
final_block = record {
  height = 7;
  round = 0;
  block_hash = 9 ∷ [];
  commit_votes = vote_of 1 VotePhase.commit ∷ [];
}

made_at : (now : ℕ) → new shard 7 two_validators now timeouts ≡ ok (opened_at now)
unfolding new collect insert contains_key lookup
made_at now = refl

one_round-run :
    (now : ℕ) → (run always_valid (opened_at now) one_round).finalized ≡ some final_block
unfolding run step receive_proposal receive_vote leader verify install_proposal proposes
    expected_phase is_finalized count_vote record_vote bucket has_supermajority vote_stake stake_of
    advance_after_quorum finalize insert lookup remove contains_key
one_round-run now = refl

finalized-Certificate_example :
    ((run always_valid (opened_at 3) one_round).step ≡ ConsensusStep.finalized)
    × (proposes (run always_valid (opened_at 3) one_round).proposal (9 ∷ []) ≡ true)
    × (has_supermajority (run always_valid (opened_at 3) one_round) VotePhase.pre_vote ≡ true)
    × (has_supermajority (run always_valid (opened_at 3) one_round) VotePhase.pre_commit ≡ true)
    × Certificate always_valid (run always_valid (opened_at 3) one_round) final_block
finalized-Certificate_example =
    finalized-Certificate always_valid shard 7 two_validators 3 timeouts one_round final_block
      {e = opened_at 3} (made_at 3) (one_round-run 3)

agreement_example :
    30
    ≤ shared_stake
        (opened_at 3).validators
        (by_validator final_block.commit_votes)
        (by_validator final_block.commit_votes)
      * 3
agreement_example =
    agreement always_valid shard 7 two_validators 3 4 timeouts timeouts one_round one_round
      final_block final_block {e = opened_at 3} {d = opened_at 4} (made_at 3) (made_at 4)
      (omega arith) (one_round-run 3) (one_round-run 4)

abbrev stopped : ConsensusEngine
stopped = record (opened_at 3) {
  step = ConsensusStep.finalized;
  proposal = some block;
  finalized = some final_block;
}

run-finalized_example : run always_valid stopped (ticked 100 ∷ proposed block ∷ []) ≡ stopped
run-finalized_example = run-finalized always_valid stopped (ticked 100 ∷ proposed block ∷ []) refl

opened-IsValid : IsValid always_valid (opened_at 3)
opened-IsValid = new-IsValid always_valid shard 7 two_validators 3 timeouts (made_at 3)

step-IsValid_example : IsValid always_valid (step always_valid (opened_at 3) (proposed block))
step-IsValid_example = step-IsValid always_valid (opened_at 3) (proposed block) opened-IsValid

step-Moves_example : Moves (opened_at 3) (ticked 9) (step always_valid (opened_at 3) (ticked 9))
step-Moves_example = step-Moves always_valid (opened_at 3) (ticked 9) opened-IsValid

calculate_actual_stake_example :
    (calculate_actual_stake 500 300 100 ≡ min 500 (300 * 100 / 100))
    × (100 ≤ 300 → 100 ≤ 500 → 100 ≤ calculate_actual_stake 500 300 100)
calculate_actual_stake_example =
    calculate_actual_stake_lem 500 300 100 (omega arith) (omega arith) (omega arith)

abbrev tracker_of : ℕ → List ℕ → BftQuorumTracker
tracker_of signed ids = record {
  shard = shard;
  block_hash = 9 ∷ [];
  total_group_stake = 30;
  signed_stake = signed;
  signatories = ids;
}

abbrev depth_vote : BlockSignatureWithDepth
depth_vote = record { validator_id = 1; depth = 0; signature = [] }

abbrev candidates : List CandidateValidatorSpec
candidates =
    record { public_key = 1 ∷ []; proposed_stake = 100; max_load_factor = 200 }
    ∷ record { public_key = 2 ∷ []; proposed_stake = 900; max_load_factor = 300 }
    ∷ record { public_key = 3 ∷ []; proposed_stake = 50; max_load_factor = 100 }
    ∷ []

abbrev two_seats : ElectionConfig
two_seats = record { validator_cap = 2; max_load_factor_scaled = 1_000 }

abbrev elected : ElectionResult
elected = record {
  validators =
      record { validator_id = 0; public_key = 2 ∷ []; actual_stake = 300 }
      ∷ record { validator_id = 1; public_key = 1 ∷ []; actual_stake = 100 }
      ∷ [];
  refunds =
      record { public_key = 2 ∷ []; amount = 600 }
      ∷ record { public_key = 1 ∷ []; amount = 0 }
      ∷ record { public_key = 3 ∷ []; amount = 50 }
      ∷ [];
}

run_election_example :
    (sum_of (λ v. v.actual_stake) elected.validators + sum_of (λ x. x.amount) elected.refunds
      ≡ sum_of (λ c. c.proposed_stake) candidates)
    × (map (λ v. v.public_key) elected.validators
        ≡ map
            (λ c. c.public_key)
            (take (min (length candidates) 2) (sort_by cmp_candidates candidates)))
    × IsOrdered cmp_candidates (sort_by cmp_candidates candidates)
    × (map (λ x. x.public_key) elected.refunds
        ≡ map (λ c. c.public_key) (sort_by cmp_candidates candidates))
unfolding run_election check_candidates sort_by allocate entry_of locked_stake stake_at_index
    calculate_actual_stake insert contains_key lookup
run_election_example = run_election_lem candidates two_seats {r = elected} refl
