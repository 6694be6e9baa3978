-- ===== src/Consensus/Stake.antt =====
-- crates/protocol/onx-consensus/src/lib.rs: the stake of a selected candidate, the quorum tracker,
-- late rewards and irrevocable finality.
pub mod Laws
use the_open_network_x.Prelude.{
  ℕ, ◌+◌, ◌*◌, ◌/◌, ◌%◌, ◌^◌, min, Bool, true, false, not, ◌||◌, ◌++◌, List, [], ◌∷◌, Result, ok,
  err, ◌>>=◌, ◌>>◌, require, map_err, leb, ltb, ◌==◌, if◌then◌else◌,
}
use the_open_network_x.Prelude.Words.{saturating_add, saturating_mul, u64_max, u128_max}
use the_open_network_x.Primitives.Hash.{Crypto, validator_sign_v1}
use the_open_network_x.Primitives.FixedBytes.{Uint256}
use the_open_network_x.Primitives.Signature.{verify}
use the_open_network_x.DataStructures.Shard.{ShardIdent}
use the_open_network_x.DataStructures.Block.{BlockHeader}
use the_open_network_x.Consensus.Types.{
  ConsensusError, invalid_signature, duplicate_validator_signature, insufficient_quorum_stake,
  BlockSignatureWithDepth, ValidatorSetEntry,
}

-- The cast `cap as u64` keeps the low 64 bits.
unfoldable pub calculate_actual_stake : ℕ → ℕ → ℕ → ℕ
calculate_actual_stake proposed_stake load_factor_scaled min_selected_stake =
    let cap = saturating_mul u128_max load_factor_scaled min_selected_stake / 100 in
    min proposed_stake (cap % 2 ^ 64)

pub record BftQuorumTracker : Type 0 where
  pub shard : ShardIdent
  pub block_hash : Uint256
  pub total_group_stake : ℕ
  pub signed_stake : ℕ
  pub signatories : List ℕ

unfoldable pub new : ShardIdent → Uint256 → ℕ → BftQuorumTracker
new shard block_hash total_group_stake = record {
  shard = shard;
  block_hash = block_hash;
  total_group_stake = total_group_stake;
  signed_stake = 0;
  signatories = [];
}

-- `Vec::contains`
unfoldable pub contains : List ℕ → ℕ → Bool
contains [] id = false
contains (x ∷ xs) id = x == id || contains xs id

module _ (crypto : Crypto) where
  -- A call that fails leaves the tracker as it was.
  unfoldable pub add_vote :
      BftQuorumTracker
      → BlockSignatureWithDepth
      → ValidatorSetEntry
      → Result ConsensusError BftQuorumTracker
  add_vote self vote validator = do
    require (vote.validator_id == validator.validator_id) invalid_signature
    require (not (contains self.signatories vote.validator_id)) duplicate_validator_signature
    map_err (λ _. invalid_signature)
        (verify crypto validator.public_key validator_sign_v1 self.block_hash vote.signature)
    ok (record self {
      signatories = self.signatories ++ vote.validator_id ∷ [];
      signed_stake = saturating_add u64_max self.signed_stake validator.actual_stake;
    })

unfoldable pub has_quorum : BftQuorumTracker → Bool
has_quorum self = leb (self.total_group_stake * 2) (self.signed_stake * 3)

unfoldable pub verify_quorum : BftQuorumTracker → Result ConsensusError (Unit {0})
unfolding has_quorum
verify_quorum self = if has_quorum self then ok tt else err insufficient_quorum_stake

unfoldable pub calculate_late_reward : ℕ → ℕ → ℕ
calculate_late_reward base_reward blocks_late =
    if ltb 16 blocks_late
    then 0
    else saturating_mul u128_max base_reward (9 ^ blocks_late) / 10 ^ blocks_late

-- 2 ^ 20
abbrev pub challenge_window_blocks : ℕ
challenge_window_blocks = 1_048_576

unfoldable pub is_block_irrevocably_final : ℕ → ℕ → Bool → Bool
is_block_irrevocably_final masterchain_commit_height current_masterchain_height proof =
    if proof
    then false
    else leb (saturating_add u64_max masterchain_commit_height challenge_window_blocks)
        current_masterchain_height

-- The source looks at nothing of the header.
unfoldable pub evaluate_candidate_block_header : BlockHeader → Result ConsensusError (Unit {0})
evaluate_candidate_block_header header = ok tt
