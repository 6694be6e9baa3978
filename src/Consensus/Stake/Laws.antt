-- ===== src/Consensus/Stake/Laws.antt =====
-- Bounds of the stake cap, one vote per validator, late rewards and finality.
use native.Mathlib.Nat.{
  pow-suc, le-div_iff_mul-le, div-mul-le_self, one-le-pow, div-le_of_le-mul, mul-le-mul_left,
  pow-le-pow_left,
}
use the_open_network_x.Prelude.{
  ℕ, suc, ◌+◌, ◌*◌, ◌/◌, ◌^◌, ◌≤◌, ◌<◌, ◌≡◌, ◌↔◌, min, true, false, arith,
}
use the_open_network_x.Prelude.Words.{u16_max, u64_max, u128_max}
use the_open_network_x.Consensus.Stake.{
  calculate_actual_stake, calculate_late_reward, is_block_irrevocably_final,
  challenge_window_blocks,
}

hundredfold : (l m : ℕ) → 100 ≤ l → 100 * m ≤ l * m
hundredfold l m h = grind arith

-- For a 16-bit load factor and a minimum stake whose cap fits 64 bits, the stake is the smaller of
-- the proposed stake and load factor times minimum, over 100; and a candidate with a factor of at
-- least 100 that proposed at least the minimum keeps at least the minimum.
pub calculate_actual_stake_lem :
    (s l m : ℕ)
    → l ≤ u16_max
    → m ≤ u64_max
    → l * m / 100 ≤ u64_max
    → (calculate_actual_stake s l m ≡ min s (l * m / 100))
      × (100 ≤ l → m ≤ s → m ≤ calculate_actual_stake s l m)
unfolding calculate_actual_stake
calculate_actual_stake_lem s l m hl hm hc =
    (omega arith, λ at_least proposed. omega (arith, hundredfold l m at_least))

div_tenth : (x y q : ℕ) → 0 < q → x ≤ 10 * y → x / (q * 10) ≤ y / q
div_tenth x y q pos h = (le-div_iff_mul-le pos).1 (omega (arith, div-mul-le_self x (q * 10)))

reward_step :
    (base k : ℕ)
    → min (base * 9 ^ suc k) u128_max / 10 ^ suc k ≤ min (base * 9 ^ k) u128_max / 10 ^ k
reward_step base k =
    rw (pow-suc 9 k, pow-suc 10 k)
      (div_tenth (min (base * (9 ^ k * 9)) u128_max) (min (base * 9 ^ k) u128_max) (10 ^ k)
        (one-le-pow k 10 (omega arith)) (omega arith))

reward_bound : (base k : ℕ) → min (base * 9 ^ k) u128_max / 10 ^ k ≤ base
reward_bound base k =
    div-le_of_le-mul (10 ^ k)
      (omega (arith, mul-le-mul_left base (pow-le-pow_left {n = 9} {m = 10} (omega arith) k)))

-- A late reward is at most the base reward, and a further block of delay never raises it.
pub calculate_late_reward_decays :
    (base k : ℕ)
    → (calculate_late_reward base k ≤ base)
      × (calculate_late_reward base (suc k) ≤ calculate_late_reward base k)
unfolding calculate_late_reward
calculate_late_reward_decays base k =
    (ground (arith, reward_bound base k), ground (arith, reward_step base k))

-- With no accepted invalidity proof a block is final exactly from 2^20 masterchain blocks after its
-- commit on, if that height fits 64 bits; with one it is never final.
pub is_block_irrevocably_final_lem :
    (commit height : ℕ)
    → commit + challenge_window_blocks ≤ u64_max
    → ((is_block_irrevocably_final commit height false ≡ true)
        ↔ (commit + challenge_window_blocks ≤ height))
      × (is_block_irrevocably_final commit height true ≡ false)
unfolding is_block_irrevocably_final
is_block_irrevocably_final_lem commit height h = ground arith
