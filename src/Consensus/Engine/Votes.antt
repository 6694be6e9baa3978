-- ===== src/Consensus/Engine/Votes.antt =====
-- The votes that the engine accepts: what `receive_vote` checks, and the buckets of the phases.
use the_open_network_x.Prelude.{
  ℕ, ◌≡◌, ◌≢◌, true, some, none, [], ok, ◌⊎◌, inl, inr, arith, ◌==◌, Option-cases, Bool-cases,
}
use the_open_network_x.Prelude.Ord.{bytes_ord, nat_ord}
use the_open_network_x.Prelude.BTreeMap.{
  BTreeMap, lookup, insert, remove, contains_key, lookup-insert_self, lookup-insert_ne,
  lookup-remove_self, lookup-remove_ne,
}
use the_open_network_x.Primitives.Hash.{Crypto, validator_sign_v1}
use the_open_network_x.Primitives.Signature.{verify}
use the_open_network_x.Consensus.Types.{ValidatorSetEntry}
use the_open_network_x.Consensus.Engine.Types.{
  VotePhase, ConsensusVote, ConsensusEngine, vote_signing_bytes, phase_rank, phase_ord,
  cmp_phase-eq,
}
use the_open_network_x.Consensus.Engine.{receive_vote, expected_phase, count_vote, bucket, proposes}

abbrev pub Bucket : Type 0
Bucket = BTreeMap ℕ ConsensusVote

pub bucket-insert_self :
    (q : VotePhase) (b : Bucket) (votes : BTreeMap VotePhase Bucket)
    → bucket q (insert q b votes) ≡ b
unfolding bucket
bucket-insert_self q b votes = ground (arith, lookup-insert_self q b votes)

pub bucket-insert_ne :
    (p q : VotePhase) (b : Bucket) (votes : BTreeMap VotePhase Bucket)
    → p ≢ q
    → bucket p (insert q b votes) ≡ bucket p votes
unfolding bucket
bucket-insert_ne p q b votes n = ground (arith, lookup-insert_ne p q b votes n)

pub bucket-remove_self :
    (q : VotePhase) (votes : BTreeMap VotePhase Bucket) → bucket q (remove q votes) ≡ []
unfolding bucket
bucket-remove_self q votes = ground (arith, lookup-remove_self q votes)

pub bucket-remove_ne :
    (p q : VotePhase) (votes : BTreeMap VotePhase Bucket)
    → p ≢ q
    → bucket p (remove q votes) ≡ bucket p votes
unfolding bucket
bucket-remove_ne p q votes n = ground (arith, lookup-remove_ne p q votes n)

module _ (crypto : Crypto) where
  -- The vote's signature verifies under the key that the validator set holds for its identifier.
  abbrev pub IsSigned : ConsensusEngine → ConsensusVote → Type 0
  IsSigned e vote =
      (v : ValidatorSetEntry) × (lookup vote.validator_id e.validators ≡ some v)
      × (verify crypto v.public_key validator_sign_v1
            (vote_signing_bytes e.shard vote.height vote.round vote.phase vote.block_hash)
            vote.signature
          ≡ ok tt)

  -- What holds of a vote that is counted.
  pub record IsAccepted (e : ConsensusEngine) (vote : ConsensusVote) : Type 0 where
    pub height_is : vote.height ≡ e.height
    pub round_is : vote.round ≡ e.round
    pub proposed : proposes e.proposal vote.block_hash ≡ true
    pub expected : expected_phase e.step ≡ some vote.phase
    pub signed : IsSigned e vote
    pub fresh : lookup vote.validator_id (bucket vote.phase e.votes) ≡ none

  accepted :
      (e : ConsensusEngine) (vote : ConsensusVote) (v : ValidatorSetEntry) {e' : ConsensusEngine}
      → receive_vote crypto e vote ≡ ok e'
      → expected_phase e.step ≡ some vote.phase
      → lookup vote.validator_id e.validators ≡ some v
      → IsAccepted e vote × (e' ≡ count_vote e vote.phase vote)
  unfolding receive_vote contains_key
  accepted e vote v h expected known = (
    record {
      height_is = ground arith;
      round_is = ground arith;
      proposed = ground arith;
      expected = expected;
      signed = (v, known, ground arith);
      fresh = ground arith;
    },
    ground arith,
  )

  -- A vote that does not fail is either late and ignored, or accepted and counted.
  pub receive_vote_inv :
      (e : ConsensusEngine) (vote : ConsensusVote) {e' : ConsensusEngine}
      → receive_vote crypto e vote ≡ ok e'
      → (e' ≡ e) ⊎ (IsAccepted e vote × (e' ≡ count_vote e vote.phase vote))
  unfolding receive_vote contains_key
  receive_vote_inv e vote h = elim (Option-cases (expected_phase e.step)) [
    | inl nothing ↦ absurd (ground arith)
    | inr (x, expected) ↦ elim (Option-cases (lookup vote.validator_id e.validators)) [
      | inl unknown ↦ absurd (ground arith)
      | inr (v, known) ↦ elim (Bool-cases (phase_rank vote.phase == phase_rank x)) [
        | inl now ↦
            inr (accepted e vote v h (rw (cmp_phase-eq vote.phase x (ground arith)) expected) known)
        | inr late ↦ inl (ground arith)
      ]
    ]
  ]

pub VotePhase-discrete : Discrete VotePhase
VotePhase-discrete = hlevel
