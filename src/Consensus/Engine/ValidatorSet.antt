-- ===== src/Consensus/Engine/ValidatorSet.antt =====
-- The validator set of an engine: what `new` establishes and no call changes.
use the_open_network_x.Prelude.{
  ℕ, zero, suc, ◌+◌, ◌%◌, ◌<◌, ◌≡◌, refl, sym, subst, ◌∙◌, false, some, none, List, [], ◌∷◌, map,
  ok, inl, inr, arith, Option-cases, Bool-cases, Result-cases, length, min, get_elem?, null,
  length-map, ◌==◌,
}
use native.Mathlib.Nat.{mod-lt}
use the_open_network_x.Prelude.Ord.{nat_ord}
use the_open_network_x.Prelude.Words.{saturating_add, u64_max}
use the_open_network_x.Prelude.BTreeMap.{lookup, insert, contains_key}
use the_open_network_x.Prelude.BTreeMap.Sorted.{IsSorted, insert-IsSorted}
use the_open_network_x.Primitives.Hash.{Crypto}
use the_open_network_x.DataStructures.Shard.{ShardIdent}
use the_open_network_x.Consensus.Types.{ValidatorSetEntry}
use the_open_network_x.Consensus.Engine.Types.{
  ConsensusEngine, RoundTimeouts, ConsensusVote, VotePhase,
}
use the_open_network_x.Consensus.Engine.{
  new, collect, leader, receive_proposal, install_proposal, receive_vote, on_timeout, count_vote,
  record_vote, advance_after_quorum, finalize,
}
use the_open_network_x.Consensus.Engine.Votes.{receive_vote_inv}
use the_open_network_x.Consensus.Engine.Certificate.{stake_sum, Validators}
use the_open_network_x.Consensus.Engine.Preservation.{new_inv}
use the_open_network_x.Consensus.Engine.Run.{Event, proposed, voted, ticked, after, step, run}

-- The set is not empty, its identifiers ascend, and the engine's total is the sum of the stakes,
-- cut off at the largest `u64`.
pub record IsValidatorSet (e : ConsensusEngine) : Type 0 where
  pub sorted : IsSorted e.validators
  pub total_is : e.total_stake ≡ min (stake_sum e.validators) u64_max
  pub inhabited : 0 < length e.validators
  pub staked : 0 < e.total_stake

stake_sum-insert :
    (id : ℕ) (v : ValidatorSetEntry) (m : Validators)
    → lookup id m ≡ none
    → stake_sum (insert id v m) ≡ v.actual_stake + stake_sum m
unfolding lookup insert
stake_sum-insert id v [] h = refl
stake_sum-insert id v ((j, w) ∷ m) h = ground (arith, stake_sum-insert id v m)

collect_lem :
    (vs : List ValidatorSetEntry) (entries : Validators) (total : ℕ) {m : Validators} {sum : ℕ}
    → IsSorted entries
    → total ≡ min (stake_sum entries) u64_max
    → collect vs entries total ≡ ok (m, sum)
    → IsSorted m × (sum ≡ min (stake_sum m) u64_max)
unfolding collect contains_key
collect_lem [] entries total {m} {sum} s t h =
    let m_is : entries ≡ m = ground arith in rw (← m_is) (s, ground arith)
collect_lem (v ∷ vs) entries total {m} {sum} s t h =
    elim (Option-cases (lookup v.validator_id entries)) [
      | inl unseen ↦
          collect_lem vs (insert v.validator_id v entries)
            (saturating_add u64_max total v.actual_stake)
            (insert-IsSorted v.validator_id v entries s)
            (ground (arith, stake_sum-insert v.validator_id v entries unseen)) (ground arith)
      | inr (w, seen) ↦ absurd (ground arith)
    ]

-- `new` builds a proper set.
pub new-IsValidatorSet :
    (shard : ShardIdent) (height : ℕ) (vs : List ValidatorSetEntry) (now : ℕ) (t : RoundTimeouts)
    {e : ConsensusEngine}
    → new shard height vs now t ≡ ok e
    → IsValidatorSet e
new-IsValidatorSet shard height vs now t h =
    let (m, sum, made, full, staked, e_is) = new_inv shard height vs now t h in
    let (sorted, total) = collect_lem vs [] 0 tt refl made in
    rw e_is (record {
      sorted = sorted;
      total_is = total;
      inhabited = inhabited m full;
      staked = omega arith;
    })
  where
    inhabited : (m : Validators) → null m ≡ false → 0 < length m
    inhabited [] full = absurd (ground arith)
    inhabited (x ∷ m) full = omega arith

-- Two nodes that start from the same list have the same set and the same total.
pub new-validators :
    (shard : ShardIdent) (height : ℕ) (vs : List ValidatorSetEntry) (now now' : ℕ)
    (t t' : RoundTimeouts) {e d : ConsensusEngine}
    → new shard height vs now t ≡ ok e
    → new shard height vs now' t' ≡ ok d
    → (d.validators ≡ e.validators) × (d.total_stake ≡ e.total_stake)
new-validators shard height vs now now' t t' {e} {d} h h' =
    let (m, sum, made, _, _, e_is) = new_inv shard height vs now t h in
    let (m', sum', made', _, _, d_is) = new_inv shard height vs now' t' h' in
    ground (arith, made, made', e_is, d_is)

-- What no call changes.
abbrev pub SameHeight : ConsensusEngine → ConsensusEngine → Type 0
SameHeight e e' =
    (e'.shard ≡ e.shard)
    × (e'.height ≡ e.height)
    × (e'.validators ≡ e.validators)
    × (e'.total_stake ≡ e.total_stake)

advance-SameHeight : (e : ConsensusEngine) (q : VotePhase) → SameHeight e (advance_after_quorum e q)
unfolding advance_after_quorum finalize
advance-SameHeight e q = ground arith

count_vote-SameHeight :
    (e : ConsensusEngine) (q : VotePhase) (vote : ConsensusVote)
    → SameHeight e (count_vote e q vote)
unfolding count_vote record_vote
count_vote-SameHeight e q vote = ground (arith, advance-SameHeight (record_vote e vote) q)

module _ (crypto : Crypto) where
  step-SameHeight : (e : ConsensusEngine) (x : Event) → SameHeight e (step crypto e x)
  unfolding step receive_proposal install_proposal on_timeout
  step-SameHeight e (proposed p) = ground arith
  step-SameHeight e (voted vote) = elim (Result-cases (receive_vote crypto e vote)) [
    | inl (e', h) ↦
        subst (λ r. SameHeight e (after e r)) (sym h)
          (elim (receive_vote_inv crypto e vote h) [
            | inl late ↦ subst (SameHeight e) (sym late) (refl, refl, refl, refl)
            | inr (a, counted) ↦
                subst (SameHeight e) (sym counted) (count_vote-SameHeight e vote.phase vote)
          ])
    | inr (x, h) ↦ subst (λ r. SameHeight e (after e r)) (sym h) (refl, refl, refl, refl)
  ]
  step-SameHeight e (ticked now) = ground arith

  pub run-SameHeight : (e : ConsensusEngine) (xs : List Event) → SameHeight e (run crypto e xs)
  unfolding run
  run-SameHeight e [] = (refl, refl, refl, refl)
  run-SameHeight e (x ∷ xs) =
      let one = step-SameHeight e x in
      let rest = run-SameHeight (step crypto e x) xs in
      (rest.0 ∙ one.0, rest.1 ∙ one.1, rest.2 ∙ one.2, rest.3 ∙ one.3)

  pub run-IsValidatorSet :
      (e : ConsensusEngine) (xs : List Event) → IsValidatorSet e → IsValidatorSet (run crypto e xs)
  run-IsValidatorSet e xs s =
      let (_, _, vs, total) = run-SameHeight e xs in
      record {
        sorted = rw vs s.sorted;
        total_is = rw (total, vs) s.total_is;
        inhabited = rw vs s.inhabited;
        staked = rw total s.staked;
      }

get_elem?-some {ℓ} :
    {A : Type ℓ} (xs : List A) (i : ℕ) → i < length xs → (x : A) × (get_elem? xs i ≡ some x)
get_elem?-some [] i h = elim h [ ]
get_elem?-some (x ∷ xs) zero h = (x, refl)
get_elem?-some (x ∷ xs) (suc i) h = get_elem?-some xs i (omega arith)

-- The i-th key of a sorted set is that of a validator.
key_known :
    (vs : Validators) (i id : ℕ)
    → get_elem? (map (λ e. e.0) vs) i ≡ some id
    → (v : ValidatorSetEntry) × (lookup id vs ≡ some v)
unfolding lookup
key_known [] i id h = absurd (ground arith)
key_known ((j, w) ∷ vs) zero id h = (w, ground arith)
key_known ((j, w) ∷ vs) (suc i) id h = elim (Bool-cases (id == j)) [
  | inl hit ↦ (w, ground arith)
  | inr miss ↦ let (v, known) = key_known vs i id h in (v, ground arith)
]

-- The `expect` of `leader` cannot fail: in every round of an engine with a proper set the leader is
-- a validator of the set, and it is the one at the round's place, counted modulo the set's size.
pub leader_total :
    (e : ConsensusEngine)
    → IsValidatorSet e
    → (id : ℕ) × (v : ValidatorSetEntry) × (leader e ≡ some id)
      × (lookup id e.validators ≡ some v)
      × (get_elem? (map (λ x. x.0) e.validators) (e.round % length e.validators) ≡ some id)
unfolding leader
leader_total e s =
    let i = e.round % length e.validators in
    let (id, at) = get_elem?-some (map (λ x. x.0) e.validators) i (
      ground
        (arith, s.inhabited, length-map e.validators (λ x. x.0), mod-lt e.round s.inhabited)) in
    let (v, known) = key_known e.validators i id at in (id, v, at, known, at)
