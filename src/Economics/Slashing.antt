-- ===== src/Economics/Slashing.antt =====
-- crates/protocol/onx-economics/src/slashing.rs: the debits for misconduct.
use the_open_network_x.Prelude.{ℕ, ◌+◌, ◌-◌, ◌*◌, ◌/◌, ◌≤◌, ◌≡◌, arith}
use the_open_network_x.Prelude.Words.{saturating_mul, u128_max}

pub data SlashingReason : Type 0 where
  double_signing persistent_offline : SlashingReason

pub record SlashOutcome : Type 0 where
  pub debited : ℕ
  pub remaining_stake : ℕ

abbrev pub double_sign_slash_bps : ℕ
double_sign_slash_bps = 10_000

abbrev pub offline_slash_bps : ℕ
offline_slash_bps = 1_000

unfoldable pub apply_slash : ℕ → ℕ → SlashOutcome
apply_slash stake_nanos basis_points =
    let debited = saturating_mul u128_max stake_nanos basis_points / 10_000 in
    record { debited = debited; remaining_stake = stake_nanos - debited }

abbrev pub basis_points_of : SlashingReason → ℕ
basis_points_of SlashingReason.double_signing = double_sign_slash_bps
basis_points_of SlashingReason.persistent_offline = offline_slash_bps

unfoldable pub slash_for_misconduct : ℕ → SlashingReason → SlashOutcome
unfolding apply_slash
slash_for_misconduct stake_nanos reason = apply_slash stake_nanos (basis_points_of reason)

-- A slash splits the stake into what is debited and what remains, whatever the misconduct and also
-- where the product saturates. Without saturation a double signer loses the whole stake and an
-- offline validator a tenth of it, rounded down.
pub slash_for_misconduct_lem :
    (stake : ℕ) (reason : SlashingReason)
    → ((slash_for_misconduct stake reason).debited
          + (slash_for_misconduct stake reason).remaining_stake
        ≡ stake)
      × (stake * 10_000 ≤ u128_max
          → ((slash_for_misconduct stake SlashingReason.double_signing).remaining_stake ≡ 0)
            × ((slash_for_misconduct stake SlashingReason.persistent_offline).debited ≡ stake / 10))
unfolding slash_for_misconduct
slash_for_misconduct_lem stake reason = (ground arith, λ h. (omega arith, omega arith))
