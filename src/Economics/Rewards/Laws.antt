-- ===== src/Economics/Rewards/Laws.antt =====
-- The rewards of an epoch add up to exactly what is minted.
use native.Mathlib.Nat.{mod-add-div', mod-lt, le_of_mul-le-mul_right}
use the_open_network_x.Prelude.{
  ℕ, zero, suc, ◌+◌, ◌-◌, ◌*◌, ◌%◌, ◌^◌, ◌≤◌, ◌<◌, ◌≡◌, ◌≢◌, sym, ap, ◌∙◌, min, List, [], ◌∷◌, map,
  length, length-map, All, ok, arith, Result-cases, inl, inr,
}
use the_open_network_x.Prelude.Ord.{nat_ord}
use the_open_network_x.Prelude.Words.{u64_max, u128_max}
use the_open_network_x.Prelude.Sort.{sort_by, sum_of, sum_of-sort_by, length-sort_by, All-sort_by}
use the_open_network_x.Prelude.BTreeMap.{BTreeMap, insert}
use the_open_network_x.Economics.Fees.{calculate_epoch_inflation_reward}
use the_open_network_x.Economics.Rewards.{
  ValidatorStake, ValidatorReward, cmp_id, total_of, share_of, add_one_to_first, round_up,
  distribute_epoch_rewards,
}

-- The products stay within 128 bits.
abbrev pub Fits : ℕ → List ValidatorStake → Type 0
Fits reward = All (λ v. reward * v.stake_nanos ≤ u128_max)

stakes : List ValidatorStake → ℕ
stakes = sum_of (λ v. v.stake_nanos)

shares : ℕ → ℕ → List ValidatorStake → ℕ
shares reward total vs = sum_of (λ r. r.reward_nanos) (map (share_of reward total) vs)

-- Times the total stake, the floor shares fall short of the exact shares by less than one each.
shares_bounds :
    (reward total : ℕ) (vs : List ValidatorStake)
    → 0 < total
    → Fits reward vs
    → (shares reward total vs * total ≤ reward * stakes vs)
      × (reward * stakes vs + length vs ≤ shares reward total vs * total + length vs * total)
unfolding shares stakes share_of
shares_bounds reward total [] pos f = (omega arith, omega arith)
shares_bounds reward total (v ∷ vs) pos f =
    let (low, high) = shares_bounds reward total vs pos f.1 in
    let p = reward * v.stake_nanos in
    let exact : min p u128_max ≡ p = omega arith in
    (
      rw exact (omega (arith, low, mod-add-div' p total)),
      rw exact (omega (arith, high, mod-add-div' p total, mod-lt p pos)),
    )

-- So the floor shares add up to at most the reward, and miss it by less than the number of
-- validators.
shares_close :
    (reward total : ℕ) (vs : List ValidatorStake)
    → 0 < total
    → total ≡ stakes vs
    → Fits reward vs
    → (shares reward total vs ≤ reward) × (reward ≤ shares reward total vs + length vs)
shares_close reward total vs pos t f =
    let (low, high) = shares_bounds reward total vs pos f in
    let scaled = ap (λ (s : ℕ). reward * s) t in
    (
      le_of_mul-le-mul_right (omega (arith, low, scaled)) pos,
      le_of_mul-le-mul_right {k = total} (omega (arith, high, scaled)) pos,
    )

total_of_lem :
    (vs : List ValidatorStake) (ids : BTreeMap ℕ (Unit {0})) (total : ℕ) {t : ℕ}
    → total_of vs ids total ≡ ok t
    → total ≤ u128_max
    → t ≡ min (total + stakes vs) u128_max
unfolding total_of stakes
total_of_lem [] ids total h fits = ground arith
total_of_lem (v ∷ vs) ids total {t} h fits =
    let rest : total_of vs (insert v.validator_id tt ids) (min (total + v.stake_nanos) u128_max)
        ≡ ok t =
      ground arith in
    omega (arith, total_of_lem vs _ _ rest (omega arith))

add_one_to_first-sum :
    (n : ℕ) (rs : List ValidatorReward)
    → n ≤ length rs
    → sum_of (λ r. r.reward_nanos) (add_one_to_first n rs) ≡ sum_of (λ r. r.reward_nanos) rs + n
unfolding add_one_to_first
add_one_to_first-sum zero rs h = omega arith
add_one_to_first-sum (suc n) [] h = absurd (omega arith)
add_one_to_first-sum (suc n) (r ∷ rs) h = omega (arith, add_one_to_first-sum n rs (omega arith))

round_up-sum :
    (reward total : ℕ) (vs : List ValidatorStake)
    → 0 < total
    → total ≡ stakes vs
    → Fits reward vs
    → length vs ≤ u64_max
    → sum_of (λ r. r.reward_nanos) (round_up reward (map (share_of reward total) vs)) ≡ reward
unfolding round_up shares
round_up-sum reward total vs pos t f n =
    let (low, high) = shares_close reward total vs pos t f in
    let rewards = map (share_of reward total) vs in
    let a = shares reward total vs in
    let whole : (reward - a) % 2 ^ 64 ≡ reward - a = omega (arith, high) in
    rw whole (
      omega (
        arith,
        low,
        add_one_to_first-sum (reward - a) rewards
            (omega (arith, high, length-map vs (share_of reward total))),
      ))

distribute_inv :
    (vs : List ValidatorStake) (epochs : ℕ) {rs : List ValidatorReward}
    → distribute_epoch_rewards vs epochs ≡ ok rs
    → (total : ℕ) × (reward : ℕ) × (total_of (sort_by cmp_id vs) [] 0 ≡ ok total)
      × (total ≢ 0)
      × (calculate_epoch_inflation_reward total epochs ≡ ok reward)
      × (rs ≡ round_up reward (map (share_of reward total) (sort_by cmp_id vs)))
unfolding distribute_epoch_rewards
distribute_inv vs epochs h = elim (Result-cases (total_of (sort_by cmp_id vs) [] 0)) [
  | inl (total, summed) ↦ elim (Result-cases (calculate_epoch_inflation_reward total epochs)) [
    | inl (reward, minted) ↦ (total, reward, summed, ground arith, minted, ground arith)
    | inr (x, failed) ↦ absurd (ground arith)
  ]
  | inr (x, failed) ↦ absurd (ground arith)
]

-- Where the stakes sum to at most the 128-bit maximum, the products of reward and stake fit 128 bits
-- and the validators number at most 2^64 - 1, an epoch's distribution hands out exactly the reward
-- that the inflation formula mints for their total stake.
pub distribute_epoch_rewards-sum :
    (vs : List ValidatorStake) (epochs reward : ℕ) {rs : List ValidatorReward}
    → distribute_epoch_rewards vs epochs ≡ ok rs
    → calculate_epoch_inflation_reward (sum_of (λ v. v.stake_nanos) vs) epochs ≡ ok reward
    → sum_of (λ v. v.stake_nanos) vs ≤ u128_max
    → All (λ v. reward * v.stake_nanos ≤ u128_max) vs
    → length vs ≤ u64_max
    → sum_of (λ r. r.reward_nanos) rs ≡ reward
unfolding stakes
distribute_epoch_rewards-sum vs epochs reward h minted small fits few =
    let sorted = sort_by cmp_id vs in
    let (total, reward', summed, staked, minted', rs_is) = distribute_inv vs epochs h in
    let resummed = sum_of-sort_by cmp_id (λ v. v.stake_nanos) vs in
    let total_is : total ≡ stakes vs =
      omega (arith, total_of_lem sorted [] 0 summed (omega arith), resummed) in
    let reward_is : reward' ≡ reward = ground (arith, minted, minted', total_is) in
    rw (rs_is, reward_is)
      (round_up-sum reward total sorted (omega (arith, staked)) (total_is ∙ sym resummed)
        (All-sort_by cmp_id (λ v. reward * v.stake_nanos ≤ u128_max) vs fits)
        (omega (arith, length-sort_by cmp_id vs)))
