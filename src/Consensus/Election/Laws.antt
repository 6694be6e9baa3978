-- ===== src/Consensus/Election/Laws.antt =====
-- What an election guarantees: no stake is lost, the number of seats, and who gets them.
use Prim.Native.Nat.Ordering.{gt}
use the_open_network_x.Prelude.{
  ℕ, zero, suc, ◌+◌, ◌-◌, ◌≤◌, ◌<◌, ◌≡◌, ◌≢◌, refl, ◌∙◌, min, false, List, [], ◌∷◌, map, length,
  take, All, ok, arith, ltb, Bool-cases, inl, inr, ap, none,
}
use native.Mathlib.Nat.{sub-zero}
use the_open_network_x.Primitives.Signature.{PublicKey}
use the_open_network_x.Prelude.BTreeMap.{
  BTreeMap, lookup, insert, contains_key, lookup-insert_self, lookup-insert_ne,
}
use the_open_network_x.Prelude.Ord.{
  cmp_bytes-eq, cmp_bytes-gt, cmp_bytes_trans, bytes_ord, same, same_refl, same→eq,
}
use the_open_network_x.Prelude.Sort.{
  sort_by, sum_of, sum_of-sort_by, length-sort_by, IsOrdered, sort_by-IsOrdered,
}
use the_open_network_x.Consensus.Types.{CandidateValidatorSpec}
use the_open_network_x.Consensus.Stake.{calculate_actual_stake}
use the_open_network_x.Consensus.Election.{
  ElectionConfig, ElectionResult, check_candidates, cmp_candidates, stake_at_index, locked_stake,
  entry_of, allocate, run_election,
}

locked_stake-le : (k m i : ℕ) (c : CandidateValidatorSpec) → locked_stake k m i c ≤ c.proposed_stake
unfolding locked_stake calculate_actual_stake
locked_stake-le k m i c = ground arith

-- Past the last seat no one locks anything.
allocate-sum :
    (k m i : ℕ) (cs : List CandidateValidatorSpec)
    → sum_of (λ v. v.actual_stake) (allocate k m i cs).validators
        + sum_of (λ r. r.amount) (allocate k m i cs).refunds
      ≡ sum_of (λ c. c.proposed_stake) cs
unfolding allocate entry_of locked_stake
allocate-sum k m i [] = refl
allocate-sum k m i (c ∷ cs) = ground (arith, allocate-sum k m (suc i) cs, locked_stake-le k m i c)

allocate-refunds :
    (k m i : ℕ) (cs : List CandidateValidatorSpec)
    → map (λ r. r.public_key) (allocate k m i cs).refunds ≡ map (λ c. c.public_key) cs
unfolding allocate
allocate-refunds k m i [] = refl
allocate-refunds k m i (c ∷ cs) = ap (◌∷◌ c.public_key) (allocate-refunds k m (suc i) cs)

take-nil {ℓ} : {A : Type ℓ} (n : ℕ) → take {A = A} n [] ≡ []
take-nil zero = refl
take-nil (suc n) = refl

allocate-validators :
    (k m i : ℕ) (cs : List CandidateValidatorSpec)
    → map (λ v. v.public_key) (allocate k m i cs).validators
      ≡ map (λ c. c.public_key) (take (k - i) cs)
unfolding allocate entry_of
allocate-validators k m i [] = rw take-nil
allocate-validators k m i (c ∷ cs) = elim (Bool-cases (ltb i k)) [
  | inl seated ↦
      let left : k - i ≡ suc (k - suc i) = ground arith in
      rw (seated, left) (ap (◌∷◌ c.public_key) (allocate-validators k m (suc i) cs))
  | inr full ↦
      let left : k - i ≡ 0 = ground arith in
      let none_left : k - suc i ≡ 0 = ground arith in
      rw (full, left) (rw none_left at (allocate-validators k m (suc i) cs))
]

cmp_candidates_flip :
    (a b : CandidateValidatorSpec) → cmp_candidates a b ≡ gt → cmp_candidates b a ≢ gt
cmp_candidates_flip a b h = ground (arith, cmp_bytes-gt a.public_key b.public_key)

cmp_candidates_trans :
    (a b c : CandidateValidatorSpec)
    → cmp_candidates a b ≢ gt
    → cmp_candidates b c ≢ gt
    → cmp_candidates a c ≢ gt
cmp_candidates_trans a b c h k = ground (
  arith,
  cmp_bytes-eq a.public_key b.public_key,
  cmp_bytes-eq b.public_key c.public_key,
  cmp_bytes_trans a.public_key b.public_key c.public_key,
)

run_election_inv :
    (cs : List CandidateValidatorSpec) (config : ElectionConfig) {r : ElectionResult}
    → run_election cs config ≡ ok r
    → (0 < min (length (sort_by cmp_candidates cs)) config.validator_cap)
      × (check_candidates config cs [] ≡ ok tt)
      × (r
          ≡ allocate
              (min (length (sort_by cmp_candidates cs)) config.validator_cap)
              (stake_at_index
                (sort_by cmp_candidates cs)
                (min (length (sort_by cmp_candidates cs)) config.validator_cap - 1))
              0
              (sort_by cmp_candidates cs))
unfolding run_election
run_election_inv cs config h = ground arith

-- An election loses no stake: what the elected lock and what is refunded is what was proposed. The
-- elected are the first of the candidates in descending order of stake, ties by ascending key, as
-- many as there are seats and candidates; and every candidate has a refund entry, in that order.
pub run_election_lem :
    (cs : List CandidateValidatorSpec) (config : ElectionConfig) {r : ElectionResult}
    → run_election cs config ≡ ok r
    → (sum_of (λ v. v.actual_stake) r.validators + sum_of (λ x. x.amount) r.refunds
        ≡ sum_of (λ c. c.proposed_stake) cs)
      × (map (λ v. v.public_key) r.validators
          ≡ map
              (λ c. c.public_key)
              (take (min (length cs) config.validator_cap) (sort_by cmp_candidates cs)))
      × IsOrdered cmp_candidates (sort_by cmp_candidates cs)
      × (map (λ x. x.public_key) r.refunds ≡ map (λ c. c.public_key) (sort_by cmp_candidates cs))
run_election_lem cs config {r} h =
    let sorted = sort_by cmp_candidates cs in
    let k = min (length sorted) config.validator_cap in
    let m = stake_at_index sorted (k - 1) in
    let (_, _, r_is) = run_election_inv cs config h in
    let seats : k ≡ min (length cs) config.validator_cap =
      ap (λ n. min n config.validator_cap) (length-sort_by cmp_candidates cs) in
    rw r_is (
      allocate-sum k m 0 sorted ∙ sum_of-sort_by cmp_candidates (λ c. c.proposed_stake) cs,
      allocate-validators k m 0 sorted
          ∙ ap (λ n. map (λ c. c.public_key) (take n sorted)) (sub-zero k ∙ seats),
      sort_by-IsOrdered cmp_candidates cmp_candidates_flip cmp_candidates_trans cs,
      allocate-refunds k m 0 sorted,
    )

unseen_before :
    (k j : PublicKey) (seen : BTreeMap PublicKey (Unit {0}))
    → lookup j (insert k tt seen) ≡ none
    → (j ≢ k) × (lookup j seen ≡ none)
unseen_before k j seen h = (
  λ e. absurd (ground (arith, lookup-insert_self k (tt {0}) seen)),
  elim (Bool-cases (same j k)) [
    | inl hit ↦ absurd (ground (arith, same→eq j k hit, lookup-insert_self k (tt {0}) seen))
    | inr miss ↦ ground (arith, lookup-insert_ne j k (tt {0}) seen (λ e. different j k miss e))
  ],
)
  where
    different : (a b : PublicKey) → same a b ≡ false → a ≡ b → ⊥
    different a b m e = ground (arith, same_refl a)

-- Neither in the set of keys seen so far nor twice in the list.
abbrev pub IsFresh : BTreeMap PublicKey (Unit {0}) → List CandidateValidatorSpec → Type 0
IsFresh seen [] = Unit {0}
IsFresh seen (c ∷ cs) =
    (lookup c.public_key seen ≡ none) × All (λ d. d.public_key ≢ c.public_key) cs × IsFresh seen cs

abbrev pub IsEligible : ElectionConfig → CandidateValidatorSpec → Type 0
IsEligible config c =
    (0 < c.proposed_stake)
    × (100 ≤ c.max_load_factor)
    × (c.max_load_factor ≤ config.max_load_factor_scaled)

IsFresh-insert :
    (k : PublicKey) (seen : BTreeMap PublicKey (Unit {0})) (cs : List CandidateValidatorSpec)
    → IsFresh (insert k tt seen) cs
    → All (λ d. d.public_key ≢ k) cs × IsFresh seen cs
IsFresh-insert k seen [] f = (tt, tt)
IsFresh-insert k seen (c ∷ cs) f =
    let (ne, out) = unseen_before k c.public_key seen f.0 in
    let (nes, outs) = IsFresh-insert k seen cs f.2 in ((ne, nes), (out, f.1, outs))

-- An accepted list of candidates has no key twice nor one seen before, and each candidate has stake
-- and a load factor of at least 100 and at most the configured limit.
pub check_candidates_lem :
    (config : ElectionConfig) (cs : List CandidateValidatorSpec)
    (seen : BTreeMap PublicKey (Unit {0}))
    → check_candidates config cs seen ≡ ok tt
    → IsFresh seen cs × All (IsEligible config) cs
unfolding check_candidates contains_key
check_candidates_lem config [] seen h = (tt, tt)
check_candidates_lem config (c ∷ cs) seen h =
    let rest : check_candidates config cs (insert c.public_key tt seen) ≡ ok tt = ground arith in
    let (fresh, eligible) = check_candidates_lem config cs (insert c.public_key tt seen) rest in
    let (nes, outs) = IsFresh-insert c.public_key seen cs fresh in
    ((ground arith, nes, outs), ((ground arith, ground arith, ground arith), eligible))
