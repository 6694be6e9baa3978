-- ===== src/Economics/Fees/Laws.antt =====
-- What the fee functions guarantee.
use native.Mathlib.Nat.{div-le_self}
use the_open_network_x.Prelude.{ℕ, ◌+◌, ◌*◌, ◌/◌, ◌%◌, ◌^◌, ◌≤◌, ◌≡◌, refl, ok, err, arith}
use the_open_network_x.Prelude.Words.{u128_max}
use the_open_network_x.Economics.Fees.{
  EconomicsError, split_transaction_fee, calculate_epoch_inflation_reward,
}

-- The two shares of a fee always add up to it, also where the product wraps; the validators get at
-- least half; and up to a fiftieth of the 128-bit range the burned share is half the fee, rounded
-- down.
pub split_transaction_fee_lem :
    (fee : ℕ)
    → ((split_transaction_fee fee).0 + (split_transaction_fee fee).1 ≡ fee)
      × ((split_transaction_fee fee).0 ≤ (split_transaction_fee fee).1)
      × (fee * 50 ≤ u128_max → (split_transaction_fee fee).0 ≡ fee / 2)
unfolding split_transaction_fee
split_transaction_fee_lem fee = (omega arith, omega arith, λ h. omega arith)

-- An epoch's reward is refused only for a year without epochs, and is at most 1.75 per cent of the
-- stake.
pub calculate_epoch_inflation_reward_lem :
    (stake epochs : ℕ)
    → (calculate_epoch_inflation_reward stake 0 ≡ err EconomicsError.zero_denominator)
      × ((r : ℕ) → calculate_epoch_inflation_reward stake epochs ≡ ok r → r * 10_000 ≤ stake * 175)
unfolding calculate_epoch_inflation_reward
calculate_epoch_inflation_reward_lem stake epochs =
    (refl, λ r h. ground (arith, div-le_self ((stake * 175) % 2 ^ 128 / 10_000) epochs))
