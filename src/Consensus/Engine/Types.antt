-- ===== src/Consensus/Engine/Types.antt =====
-- crates/protocol/onx-consensus/src/engine.rs: the types of the state machine and the bytes that
-- its messages sign.
use Prim.Native.Nat.{Ordering, compare}
use Prim.Native.Nat.Ordering.{lt, eq, gt}
use the_open_network_x.Prelude.{ℕ, ◌≡◌, Option, List, [], ◌∷◌, ◌++◌, arith}
use the_open_network_x.Prelude.Ord.{Ord}
use the_open_network_x.Prelude.BTreeMap.{BTreeMap}
use the_open_network_x.Prelude.Words.{to_be}
use the_open_network_x.Primitives.Error.{Bytes}
use the_open_network_x.Primitives.FixedBytes.{Uint256}
use the_open_network_x.Primitives.Signature.{Signature}
use the_open_network_x.DataStructures.Shard.{ShardIdent, to_bytes}
use the_open_network_x.Consensus.Types.{ValidatorSetEntry}

pub data VotePhase : Type 0 where
  pre_vote pre_commit commit : VotePhase

pub data ConsensusStep : Type 0 where
  proposal pre_vote pre_commit commit finalized : ConsensusStep

pub record RoundTimeouts : Type 0 where
  pub proposal : ℕ
  pub prevote : ℕ
  pub precommit : ℕ
  pub commit : ℕ

pub record ConsensusProposal : Type 0 where
  pub height : ℕ
  pub round : ℕ
  pub block_hash : Uint256
  pub proposer_id : ℕ
  pub signature : Signature

pub record ConsensusVote : Type 0 where
  pub height : ℕ
  pub round : ℕ
  pub phase : VotePhase
  pub block_hash : Uint256
  pub validator_id : ℕ
  pub signature : Signature

pub record FinalizedBlock : Type 0 where
  pub height : ℕ
  pub round : ℕ
  pub block_hash : Uint256
  pub commit_votes : List ConsensusVote

pub record ConsensusEngine : Type 0 where
  pub shard : ShardIdent
  pub height : ℕ
  pub validators : BTreeMap ℕ ValidatorSetEntry
  pub total_stake : ℕ
  pub timeouts : RoundTimeouts
  pub round_started_at : ℕ
  pub round : ℕ
  pub step : ConsensusStep
  pub proposal : Option ConsensusProposal
  pub votes : BTreeMap VotePhase (BTreeMap ℕ ConsensusVote)
  pub finalized : Option FinalizedBlock

abbrev pub phase_rank : VotePhase → ℕ
phase_rank VotePhase.pre_vote = 1
phase_rank VotePhase.pre_commit = 2
phase_rank VotePhase.commit = 3

-- The derived order of the phases is that of their ranks.
abbrev pub cmp_phase : VotePhase → VotePhase → Ordering
cmp_phase a b = compare (phase_rank a) (phase_rank b)

pub cmp_phase_self : (a : VotePhase) → cmp_phase a a ≡ eq
cmp_phase_self a = ground arith

pub cmp_phase-eq : (a b : VotePhase) → cmp_phase a b ≡ eq → a ≡ b
cmp_phase-eq a b h = ground arith

pub cmp_phase-gt : (a b : VotePhase) → cmp_phase a b ≡ gt → cmp_phase b a ≡ lt
cmp_phase-gt a b h = ground arith

pub cmp_phase_trans :
    (a b c : VotePhase) → cmp_phase a b ≡ lt → cmp_phase b c ≡ lt → cmp_phase a c ≡ lt
cmp_phase_trans a b c h k = ground arith

instance abbrev pub phase_ord : Ord VotePhase
phase_ord = record {
  cmp = cmp_phase;
  cmp_self = cmp_phase_self;
  cmp_eq = cmp_phase-eq;
  cmp_gt = cmp_phase-gt;
  cmp_trans = cmp_phase_trans;
}

-- "ONX_CATCHAIN_PROPOSAL_V1"
abbrev pub proposal_prefix : Bytes
proposal_prefix =
    0x4f ∷ 0x4e ∷ 0x58 ∷ 0x5f ∷ 0x43 ∷ 0x41 ∷ 0x54 ∷ 0x43 ∷ 0x48 ∷ 0x41 ∷ 0x49 ∷ 0x4e ∷ 0x5f ∷ 0x50
    ∷ 0x52 ∷ 0x4f ∷ 0x50 ∷ 0x4f ∷ 0x53 ∷ 0x41 ∷ 0x4c ∷ 0x5f ∷ 0x56 ∷ 0x31 ∷ []

-- "ONX_CATCHAIN_VOTE_V1"
abbrev pub vote_prefix : Bytes
vote_prefix =
    0x4f ∷ 0x4e ∷ 0x58 ∷ 0x5f ∷ 0x43 ∷ 0x41 ∷ 0x54 ∷ 0x43 ∷ 0x48 ∷ 0x41 ∷ 0x49 ∷ 0x4e ∷ 0x5f ∷ 0x56
    ∷ 0x4f ∷ 0x54 ∷ 0x45 ∷ 0x5f ∷ 0x56 ∷ 0x31 ∷ []

unfoldable pub proposal_signing_bytes : ShardIdent → ℕ → ℕ → Uint256 → Bytes
proposal_signing_bytes shard height round hash =
    proposal_prefix ++ (to_bytes shard ++ (to_be 8 height ++ (to_be 4 round ++ hash)))

unfoldable pub vote_signing_bytes : ShardIdent → ℕ → ℕ → VotePhase → Uint256 → Bytes
vote_signing_bytes shard height round phase hash =
    vote_prefix
    ++ (to_bytes shard ++ (to_be 8 height ++ (to_be 4 round ++ (phase_rank phase ∷ hash))))
