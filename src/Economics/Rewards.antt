-- ===== src/Economics/Rewards.antt =====
-- crates/protocol/onx-economics/src/slashing.rs: the distribution of an epoch's reward.
pub mod Laws
use Prim.Native.Nat.{Ordering, compare}
use the_open_network_x.Prelude.{
  ℕ, zero, suc, ◌+◌, ◌-◌, ◌*◌, ◌/◌, ◌%◌, ◌^◌, List, [], ◌∷◌, map, Result, ok, err, ◌>>=◌, ◌>>◌,
  require, not, ◌==◌, if◌then◌else◌,
}
use the_open_network_x.Prelude.Ord.{nat_ord}
use the_open_network_x.Prelude.Words.{saturating_add, saturating_mul, u128_max}
use the_open_network_x.Prelude.Sort.{sort_by, sum_of}
use the_open_network_x.Prelude.BTreeMap.{BTreeMap, insert, contains_key}
use the_open_network_x.Economics.Fees.{
  EconomicsError, invalid_validator_stake, duplicate_validator, calculate_epoch_inflation_reward,
}

pub record ValidatorStake : Type 0 where
  pub validator_id : ℕ
  pub stake_nanos : ℕ

pub record ValidatorReward : Type 0 where
  pub validator_id : ℕ
  pub reward_nanos : ℕ

abbrev pub cmp_id : ValidatorStake → ValidatorStake → Ordering
cmp_id a b = compare a.validator_id b.validator_id

-- The loop that checks the validators and sums their stakes.
unfoldable pub total_of : List ValidatorStake → BTreeMap ℕ (Unit {0}) → ℕ → Result EconomicsError ℕ
total_of [] ids total = ok total
total_of (v ∷ vs) ids total =
    let rest =
      total_of vs (insert v.validator_id tt ids) (saturating_add u128_max total v.stake_nanos) in
    if v.stake_nanos == 0
    then err invalid_validator_stake
    else if contains_key v.validator_id ids
    then err duplicate_validator
    else rest

-- The floor share of a validator.
unfoldable pub share_of : ℕ → ℕ → ValidatorStake → ValidatorReward
share_of total_reward total_stake validator = record {
  validator_id = validator.validator_id;
  reward_nanos = saturating_mul u128_max total_reward validator.stake_nanos / total_stake;
}

-- The loop over the first n rewards.
unfoldable pub add_one_to_first : ℕ → List ValidatorReward → List ValidatorReward
add_one_to_first zero rewards = rewards
add_one_to_first (suc n) [] = []
add_one_to_first (suc n) (r ∷ rewards) =
    record r { reward_nanos = r.reward_nanos + 1 } ∷ add_one_to_first n rewards

-- The code's subtraction of the allocated sum cannot underflow: floor shares add up to at most the
-- reward.
unfoldable pub round_up : ℕ → List ValidatorReward → List ValidatorReward
round_up total_reward rewards =
    let allocated = sum_of (λ r. r.reward_nanos) rewards in
    add_one_to_first ((total_reward - allocated) % 2 ^ 64) rewards

unfoldable pub distribute_epoch_rewards :
    List ValidatorStake → ℕ → Result EconomicsError (List ValidatorReward)
distribute_epoch_rewards validators epochs_per_year = do
  let sorted = sort_by cmp_id validators
  total_stake ← total_of sorted [] 0
  require (not (total_stake == 0)) invalid_validator_stake
  total_reward ← calculate_epoch_inflation_reward total_stake epochs_per_year
  ok (round_up total_reward (map (share_of total_reward total_stake) sorted))
