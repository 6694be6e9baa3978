-- ===== src/Consensus/Engine/Agreement.antt =====
-- Two certificates over one validator set share at least a third of the stake.
use the_open_network_x.Prelude.{
  ℕ, ◌+◌, ◌*◌, ◌≤◌, ◌≡◌, subst, ◌&&◌, none, List, [], ◌∷◌, arith, if◌then◌else◌,
}
use the_open_network_x.Prelude.Ord.{nat_ord}
use the_open_network_x.Prelude.BTreeMap.{lookup, contains_key}
use the_open_network_x.Prelude.BTreeMap.Sorted.{IsSorted, lookup-Above}
use the_open_network_x.Primitives.Hash.{Crypto}
use the_open_network_x.Consensus.Engine.Types.{ConsensusVote, ConsensusEngine, FinalizedBlock}
use the_open_network_x.Consensus.Engine.Votes.{Bucket}
use the_open_network_x.Consensus.Engine.Certificate.{
  Validators, Certificate, stake_at, signed_stake, stake_sum, by_validator,
}

-- The stake of the validators that have an entry in the bucket, and in both of two buckets.
abbrev stake_in : Validators → Bucket → ℕ
stake_in [] b = 0
stake_in ((id, v) ∷ vs) b = (if contains_key id b then v.actual_stake else 0) + stake_in vs b

abbrev pub shared_stake : Validators → Bucket → Bucket → ℕ
shared_stake [] a b = 0
shared_stake ((id, v) ∷ vs) a b =
    (if contains_key id a && contains_key id b then v.actual_stake else 0) + shared_stake vs a b

-- Counting twice what two buckets hold counts the whole set at most once, and the shared again.
stake_in_overlap :
    (vs : Validators) (a b : Bucket)
    → stake_in vs a + stake_in vs b ≤ stake_sum vs + shared_stake vs a b
stake_in_overlap [] a b = omega arith
stake_in_overlap ((id, v) ∷ vs) a b = ground (arith, stake_in_overlap vs a b)

stake_in_grows :
    (vs : Validators) (id : ℕ) (x : ConsensusVote) (b : Bucket)
    → stake_in vs b ≤ stake_in vs ((id, x) ∷ b)
unfolding contains_key lookup
stake_in_grows [] id x b = omega arith
stake_in_grows ((j, w) ∷ vs) id x b = ground (arith, stake_in_grows vs id x b)

-- A new identifier adds the stake of its validator.
stake_in-cons :
    (vs : Validators) (id : ℕ) (x : ConsensusVote) (b : Bucket)
    → lookup id b ≡ none
    → stake_at vs id + stake_in vs b ≤ stake_in vs ((id, x) ∷ b)
unfolding contains_key lookup
stake_in-cons [] id x b h = omega arith
stake_in-cons ((j, w) ∷ vs) id x b h =
    ground (arith, stake_in-cons vs id x b h, stake_in_grows vs id x b)

signed_stake-le :
    (vs : Validators) (votes : List ConsensusVote)
    → IsSorted (by_validator votes)
    → signed_stake vs votes ≤ stake_in vs (by_validator votes)
signed_stake-le vs [] s = omega arith
signed_stake-le vs (x ∷ votes) s = omega (
  arith,
  signed_stake-le vs votes s.1,
  stake_in-cons vs x.validator_id x (by_validator votes)
      (lookup-Above x.validator_id (by_validator votes) s.0),
)

module _ (crypto : Crypto) where
  -- Two certificates of one height, from nodes with the same validator set.
  pub certificates_overlap :
      (e d : ConsensusEngine) (f g : FinalizedBlock)
      → d.validators ≡ e.validators
      → d.total_stake ≡ e.total_stake
      → e.total_stake ≡ stake_sum e.validators
      → Certificate crypto e f
      → Certificate crypto d g
      → e.total_stake
        ≤ shared_stake e.validators (by_validator f.commit_votes) (by_validator g.commit_votes) * 3
  certificates_overlap e d f g vs total exact c k =
      let q =
        subst (λ v. e.total_stake * 2 ≤ signed_stake v g.commit_votes * 3) vs
          (subst (λ t. t * 2 ≤ signed_stake d.validators g.commit_votes * 3) total k.quorum) in
      omega (
        arith,
        c.quorum,
        q,
        signed_stake-le e.validators f.commit_votes c.distinct,
        signed_stake-le e.validators g.commit_votes k.distinct,
        stake_in_overlap e.validators (by_validator f.commit_votes) (by_validator g.commit_votes),
      )
