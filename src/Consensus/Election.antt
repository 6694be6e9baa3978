-- ===== src/Consensus/Election.antt =====
-- crates/protocol/onx-consensus/src/election.rs: the deterministic validator election.
pub mod Laws
use Prim.Native.Nat.{Ordering, compare}
use Prim.Native.Nat.Ordering.{lt, eq, gt}
use the_open_network_x.Prelude.{
  ℕ, zero, suc, ◌-◌, ◌%◌, ◌^◌, min, Bool, true, false, ◌||◌, List, [], ◌∷◌, length, Result, ok, err,
  ◌>>=◌, ◌>>◌, require, not, ltb, ◌==◌, if◌then◌else◌,
}
use the_open_network_x.Prelude.Ord.{cmp_bytes, bytes_ord}
use the_open_network_x.Prelude.Sort.{sort_by}
use the_open_network_x.Prelude.BTreeMap.{BTreeMap, insert, contains_key}
use the_open_network_x.Primitives.Signature.{PublicKey}
use the_open_network_x.Consensus.Types.{
  ConsensusError, invalid_candidate_stake, invalid_load_factor, duplicate_candidate,
  empty_validator_set, CandidateValidatorSpec, ValidatorSetEntry,
}
use the_open_network_x.Consensus.Stake.{calculate_actual_stake}

abbrev pub min_load_factor_scaled : ℕ
min_load_factor_scaled = 100

pub record ElectionConfig : Type 0 where
  pub validator_cap : ℕ
  pub max_load_factor_scaled : ℕ

-- `ElectionConfig::default()`
abbrev pub default_config : ElectionConfig
default_config = record { validator_cap = 100; max_load_factor_scaled = 1_000 }

pub record StakeRefund : Type 0 where
  pub public_key : PublicKey
  pub amount : ℕ

pub record ElectionResult : Type 0 where
  pub validators : List ValidatorSetEntry
  pub refunds : List StakeRefund

-- The loop that checks the candidates, with the set of the keys seen so far.
unfoldable pub check_candidates :
    ElectionConfig
    → List CandidateValidatorSpec
    → BTreeMap PublicKey (Unit {0})
    → Result ConsensusError (Unit {0})
check_candidates config [] seen = ok tt
check_candidates config (candidate ∷ rest) seen =
    let next = check_candidates config rest (insert candidate.public_key tt seen) in
    if candidate.proposed_stake == 0
    then err invalid_candidate_stake
    else if ltb candidate.max_load_factor min_load_factor_scaled
        || ltb config.max_load_factor_scaled candidate.max_load_factor
    then err invalid_load_factor
    else if contains_key candidate.public_key seen
    then err duplicate_candidate
    else next

-- Descending stake, then ascending key bytes.
abbrev pub cmp_candidates : CandidateValidatorSpec → CandidateValidatorSpec → Ordering
cmp_candidates left right = elim (compare right.proposed_stake left.proposed_stake) [
  | lt ↦ lt
  | eq ↦ cmp_bytes left.public_key right.public_key
  | gt ↦ gt
]

-- The stake of the candidate at an index; an index out of range would panic, and the one that
-- `run_election` uses is in range.
unfoldable pub stake_at_index : List CandidateValidatorSpec → ℕ → ℕ
stake_at_index [] i = 0
stake_at_index (c ∷ cs) zero = c.proposed_stake
stake_at_index (c ∷ cs) (suc i) = stake_at_index cs i

-- What the candidate at an index locks.
unfoldable pub locked_stake : ℕ → ℕ → ℕ → CandidateValidatorSpec → ℕ
locked_stake selected_count minimum_selected_stake index candidate =
    if ltb index selected_count
    then calculate_actual_stake candidate.proposed_stake candidate.max_load_factor
        minimum_selected_stake
    else 0

unfoldable pub entry_of : ℕ → ℕ → CandidateValidatorSpec → ValidatorSetEntry
entry_of index locked candidate = record {
  validator_id = index % 2 ^ 32;
  public_key = candidate.public_key;
  actual_stake = locked;
}

-- The loop over the sorted candidates, from a given index on.
unfoldable pub allocate : ℕ → ℕ → ℕ → List CandidateValidatorSpec → ElectionResult
unfolding locked_stake entry_of
allocate selected_count minimum index [] = record { validators = []; refunds = [] }
allocate selected_count minimum index (candidate ∷ rest) =
    let others = allocate selected_count minimum (suc index) rest in
    let locked = locked_stake selected_count minimum index candidate in
    record {
      validators =
          if ltb index selected_count
          then entry_of index locked candidate ∷ others.validators
          else others.validators;
      refunds =
          record { public_key = candidate.public_key; amount = candidate.proposed_stake - locked }
          ∷ others.refunds;
    }

unfoldable pub run_election :
    List CandidateValidatorSpec → ElectionConfig → Result ConsensusError ElectionResult
run_election candidates config = do
  require (not (config.validator_cap == 0)) empty_validator_set
  check_candidates config candidates []
  let sorted = sort_by cmp_candidates candidates
  let selected_count = min (length sorted) config.validator_cap
  require (not (selected_count == 0)) empty_validator_set
  ok (allocate selected_count (stake_at_index sorted (selected_count - 1)) 0 sorted)
