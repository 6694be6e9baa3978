-- ===== src/Consensus/Types.antt =====
-- crates/protocol/onx-consensus/src/lib.rs: the types that the crate's modules share.
use the_open_network_x.Prelude.{ℕ}
use the_open_network_x.Primitives.Signature.{PublicKey, Signature}

pub data ConsensusError : Type 0 where
  invalid_candidate_stake : ConsensusError
  invalid_load_factor : ConsensusError
  duplicate_candidate : ConsensusError
  empty_validator_set : ConsensusError
  insufficient_quorum_stake : ConsensusError
  invalid_signature : ConsensusError
  duplicate_validator_signature : ConsensusError
  invalid_signature_depth : ConsensusError
  invalidity_proof_verification_failed : ConsensusError
  challenge_window_expired : ConsensusError
  double_signing_detected : ConsensusError
  unknown_validator : ConsensusError
  invalid_leader : ConsensusError
  invalid_round : ConsensusError
  invalid_step : ConsensusError
  conflicting_proposal : ConsensusError

pub record CandidateValidatorSpec : Type 0 where
  pub public_key : PublicKey
  pub proposed_stake : ℕ
  pub max_load_factor : ℕ

pub record ValidatorSetEntry : Type 0 where
  pub validator_id : ℕ
  pub public_key : PublicKey
  pub actual_stake : ℕ

pub record BlockSignatureWithDepth : Type 0 where
  pub validator_id : ℕ
  pub depth : ℕ
  pub signature : Signature
