-- ===== src/Economics/Examples.antt =====
-- The theorems on fees, slashing and rewards at concrete inputs.
use the_open_network_x.Prelude.{◌≡◌, refl, List, [], ◌∷◌, arith}
use the_open_network_x.Prelude.BTreeMap.{insert, contains_key}
use the_open_network_x.Prelude.Sort.{sort_by, sum_of}
use the_open_network_x.Economics.Fees.{calculate_epoch_inflation_reward}
use the_open_network_x.Economics.Rewards.{
  ValidatorStake, ValidatorReward, distribute_epoch_rewards, total_of, share_of, round_up,
  add_one_to_first,
}
use the_open_network_x.Economics.Rewards.Laws.{distribute_epoch_rewards-sum}

abbrev staking : List ValidatorStake
staking =
    record { validator_id = 2; stake_nanos = 5_000 }
    ∷ record { validator_id = 1; stake_nanos = 2_000 }
    ∷ record { validator_id = 3; stake_nanos = 3_000 }
    ∷ []

-- The floor shares are 34, 87 and 52; the two left over go to the first two.
abbrev rewarded : List ValidatorReward
rewarded =
    record { validator_id = 1; reward_nanos = 36 }
    ∷ record { validator_id = 2; reward_nanos = 87 }
    ∷ record { validator_id = 3; reward_nanos = 52 }
    ∷ []

distribute_epoch_rewards-sum_example : sum_of (λ r. r.reward_nanos) rewarded ≡ 175
unfolding distribute_epoch_rewards total_of share_of round_up add_one_to_first sort_by insert
    contains_key calculate_epoch_inflation_reward
distribute_epoch_rewards-sum_example =
    distribute_epoch_rewards-sum staking 1 175 {rs = rewarded} refl refl (omega arith)
      (omega arith, (omega arith, (omega arith, tt))) (omega arith)
