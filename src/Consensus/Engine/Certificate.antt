-- ===== src/Consensus/Engine/Certificate.antt =====
-- What a set of commit votes proves: the stake behind it, counted without saturation, and that
-- each vote is one of the round, for the block, signed by a validator of the set.
use the_open_network_x.Prelude.{
  ℕ, ◌+◌, ◌*◌, ◌≤◌, ◌≡◌, refl, some, none, List, [], ◌∷◌, All, map, arith, Option-cases, inl, inr,
}
use the_open_network_x.Prelude.Ord.{nat_ord}
use the_open_network_x.Prelude.BTreeMap.{BTreeMap, lookup}
use the_open_network_x.Prelude.BTreeMap.Sorted.{IsSorted}
use the_open_network_x.Prelude.Words.{saturating_add, u64_max}
use the_open_network_x.Primitives.Hash.{Crypto}
use the_open_network_x.Primitives.FixedBytes.{Uint256}
use the_open_network_x.Consensus.Types.{ValidatorSetEntry}
use the_open_network_x.Consensus.Engine.Types.{
  VotePhase, ConsensusVote, ConsensusEngine, FinalizedBlock,
}
use the_open_network_x.Consensus.Engine.{stake_of}
use the_open_network_x.Consensus.Engine.Votes.{Bucket, IsSigned}

abbrev pub Validators : Type 0
Validators = BTreeMap ℕ ValidatorSetEntry

-- The stake of an identifier, nothing if it is not a validator.
abbrev pub stake_at : Validators → ℕ → ℕ
stake_at vs id = elim (lookup id vs) [ none ↦ 0 | some v ↦ v.actual_stake ]

abbrev pub signed_stake : Validators → List ConsensusVote → ℕ
signed_stake vs [] = 0
signed_stake vs (vote ∷ votes) = stake_at vs vote.validator_id + signed_stake vs votes

-- The sum that the engine keeps, before it saturates.
abbrev pub stake_sum : Validators → ℕ
stake_sum [] = 0
stake_sum ((id, v) ∷ vs) = v.actual_stake + stake_sum vs

abbrev pub by_validator : List ConsensusVote → Bucket
by_validator = map (λ v. (v.validator_id, v))

module _ (crypto : Crypto) where
  -- An entry of a phase's bucket for the block of the given hash.
  abbrev pub Counted : ConsensusEngine → VotePhase → Uint256 → ℕ × ConsensusVote → Type 0
  Counted e q hash entry =
      (entry.1.validator_id ≡ entry.0)
      × (entry.1.phase ≡ q)
      × (entry.1.height ≡ e.height)
      × (entry.1.round ≡ e.round)
      × (entry.1.block_hash ≡ hash)
      × IsSigned crypto e entry.1

  pub record Certificate (e : ConsensusEngine) (fb : FinalizedBlock) : Type 0 where
    pub height_is : fb.height ≡ e.height
    pub round_is : fb.round ≡ e.round
    -- The validators are distinct.
    pub distinct : IsSorted (by_validator fb.commit_votes)
    pub counted : All (Counted e VotePhase.commit fb.block_hash) (by_validator fb.commit_votes)
    pub quorum : e.total_stake * 2 ≤ signed_stake e.validators fb.commit_votes * 3

  -- A bucket whose keys are its votes' validators is given back by its values.
  pub by_validator-map :
      (e : ConsensusEngine) (q : VotePhase) (hash : Uint256) (b : Bucket)
      → All (Counted e q hash) b
      → by_validator (map (λ x. x.1) b) ≡ b
  by_validator-map e q hash [] a = refl
  by_validator-map e q hash ((id, vote) ∷ b) a =
      ground (arith, by_validator-map e q hash b a.1, a.0.0)

  -- Saturation only ever loses stake.
  pub stake_of-le :
      (e : ConsensusEngine) (q : VotePhase) (hash : Uint256) (total : ℕ) (b : Bucket)
      → All (Counted e q hash) b
      → stake_of e.validators total b ≤ total + signed_stake e.validators (map (λ x. x.1) b)
  unfolding stake_of
  stake_of-le e q hash total [] a = omega arith
  stake_of-le e q hash total ((id, vote) ∷ b) a = elim (Option-cases (lookup id e.validators)) [
    | inl unknown ↦ ground (arith, stake_of-le e q hash total b a.1)
    | inr (v, known) ↦
        ground (arith, stake_of-le e q hash (saturating_add u64_max total v.actual_stake) b a.1)
  ]
