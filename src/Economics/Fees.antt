-- ===== src/Economics/Fees.antt =====
-- crates/protocol/onx-economics/src/lib.rs
pub mod Laws
use the_open_network_x.Prelude.{
  ℕ, ◌-◌, ◌*◌, ◌/◌, ◌%◌, ◌^◌, Result, ok, err, leb, ◌==◌, if◌then◌else◌,
}
use the_open_network_x.Prelude.Words.{saturating_mul, u128_max}

pub data EconomicsError : Type 0 where
  zero_denominator : EconomicsError
  supply_cap_exceeded : EconomicsError
  invalid_fee_rate : EconomicsError
  invalid_validator_stake : EconomicsError
  duplicate_validator : EconomicsError

abbrev pub annual_inflation_rate_bps : ℕ
annual_inflation_rate_bps = 175

abbrev pub fee_burn_ratio_percent : ℕ
fee_burn_ratio_percent = 50

abbrev pub storage_fee_rate_per_byte_per_mlt : ℕ
storage_fee_rate_per_byte_per_mlt = 10

unfoldable pub calculate_storage_fee : ℕ → ℕ → ℕ → Result EconomicsError ℕ
calculate_storage_fee byte_count last_trans_lt new_lt =
    if leb new_lt last_trans_lt
    then ok 0
    else let elapsed_lt = new_lt - last_trans_lt in
      let fee =
        saturating_mul u128_max (saturating_mul u128_max byte_count elapsed_lt)
          storage_fee_rate_per_byte_per_mlt
        / 1_000_000 in
      ok fee

-- The plain product wraps at 128 bits, as in a build without overflow checks.
unfoldable pub split_transaction_fee : ℕ → ℕ × ℕ
split_transaction_fee total_fee_nanos =
    let burn_amount = (total_fee_nanos * fee_burn_ratio_percent) % 2 ^ 128 / 100 in
    let validator_amount = total_fee_nanos - burn_amount in (burn_amount, validator_amount)

unfoldable pub calculate_epoch_inflation_reward : ℕ → ℕ → Result EconomicsError ℕ
calculate_epoch_inflation_reward total_stake_nanos epochs_per_year =
    if epochs_per_year == 0
    then err zero_denominator
    else let annual_reward = (total_stake_nanos * annual_inflation_rate_bps) % 2 ^ 128 / 10_000 in
      ok (annual_reward / epochs_per_year)
