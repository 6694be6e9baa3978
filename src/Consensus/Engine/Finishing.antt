-- ===== src/Consensus/Engine/Finishing.antt =====
-- Moving on after a quorum keeps the invariant, and the last move leaves a certificate.
use the_open_network_x.Prelude.{◌≡◌, refl, sym, subst, true, Option, some, none, [], map, arith}
use the_open_network_x.Prelude.Ord.{same_refl, bytes_ord, nat_ord}
use the_open_network_x.Prelude.BTreeMap.{remove}
use the_open_network_x.Prelude.BTreeMap.Sorted.{IsSorted}
use the_open_network_x.Primitives.Hash.{Crypto}
use the_open_network_x.Consensus.Engine.Types.{
  VotePhase, ConsensusStep, ConsensusProposal, ConsensusEngine, phase_ord,
}
use the_open_network_x.Consensus.Engine.{
  bucket, has_supermajority, vote_stake, finalize, advance_after_quorum, proposes, expected_phase,
}
use the_open_network_x.Consensus.Engine.Votes.{
  bucket-remove_self, bucket-remove_ne, VotePhase-discrete,
}
use the_open_network_x.Consensus.Engine.Certificate.{Certificate, by_validator-map, stake_of-le}
use the_open_network_x.Consensus.Engine.Invariant.{Tally, Quorums, Fits, IsValid}
use the_open_network_x.Consensus.Engine.Counting.{unfinished}

at_pre_vote :
    (s : ConsensusStep) → expected_phase s ≡ some VotePhase.pre_vote → s ≡ ConsensusStep.pre_vote
unfolding expected_phase
at_pre_vote s h = ground arith

at_pre_commit :
    (s : ConsensusStep)
    → expected_phase s ≡ some VotePhase.pre_commit
    → s ≡ ConsensusStep.pre_commit
unfolding expected_phase
at_pre_commit s h = ground arith

at_commit :
    (s : ConsensusStep) → expected_phase s ≡ some VotePhase.commit → s ≡ ConsensusStep.commit
unfolding expected_phase
at_commit s h = ground arith

module _ (crypto : Crypto) where
  -- The certificate that the commit quorum leaves.
  finalize-Certificate :
      (e : ConsensusEngine) (p : ConsensusProposal)
      → Tally crypto e VotePhase.commit (some p) (bucket VotePhase.commit e.votes)
      → IsSorted (bucket VotePhase.commit e.votes)
      → has_supermajority e VotePhase.commit ≡ true
      → Certificate crypto e (record {
        height = e.height;
        round = e.round;
        block_hash = p.block_hash;
        commit_votes = map (λ x. x.1) (bucket VotePhase.commit e.votes);
      })
  unfolding has_supermajority vote_stake
  finalize-Certificate e p t s h =
      let b = bucket VotePhase.commit e.votes in
      let keyed = by_validator-map crypto e VotePhase.commit p.block_hash b t in
      record {
        height_is = refl;
        round_is = refl;
        distinct = rw keyed s;
        counted = rw keyed t;
        quorum = ground (arith, stake_of-le crypto e VotePhase.commit p.block_hash 0 b t);
      }

  Tally-nil :
      (e : ConsensusEngine) (q : VotePhase) (o : Option ConsensusProposal) → Tally crypto e q o []
  Tally-nil e q none = refl
  Tally-nil e q (some p) = tt

  finalized_by : ConsensusEngine → ConsensusProposal → ConsensusEngine
  finalized_by e p = record e {
    votes = remove VotePhase.commit e.votes;
    finalized = some (record {
      height = e.height;
      round = e.round;
      block_hash = p.block_hash;
      commit_votes = map (λ x. x.1) (bucket VotePhase.commit e.votes);
    });
    step = ConsensusStep.finalized;
  }

  finalize_lem :
      (e : ConsensusEngine) (p : ConsensusProposal)
      → e.proposal ≡ some p
      → finalize e ≡ finalized_by e p
  unfolding finalize finalized_by
  finalize_lem e p h = ground arith

  finalized_by-Tally :
      (e : ConsensusEngine) (p : ConsensusProposal)
      → ((q : VotePhase) → Tally crypto e q e.proposal (bucket q e.votes))
      → (q : VotePhase)
      → Tally crypto (finalized_by e p) q e.proposal (bucket q (finalized_by e p).votes)
  unfolding finalized_by
  finalized_by-Tally e p t q = elim (VotePhase-discrete q VotePhase.commit) [
    | yes same_phase ↦
        rw (same_phase, bucket-remove_self VotePhase.commit e.votes)
          (Tally-nil e VotePhase.commit e.proposal)
    | no other ↦ rw (bucket-remove_ne q VotePhase.commit e.votes other) (t q)
  ]

  finalized_by-IsSorted :
      (e : ConsensusEngine) (p : ConsensusProposal)
      → ((q : VotePhase) → IsSorted (bucket q e.votes))
      → (q : VotePhase) → IsSorted (bucket q (finalized_by e p).votes)
  unfolding finalized_by
  finalized_by-IsSorted e p s q = elim (VotePhase-discrete q VotePhase.commit) [
    | yes same_phase ↦ rw (same_phase, bucket-remove_self VotePhase.commit e.votes) tt
    | no other ↦ rw (bucket-remove_ne q VotePhase.commit e.votes other) (s q)
  ]

  finalized_by-Quorums :
      (e : ConsensusEngine) (p : ConsensusProposal)
      → Quorums ConsensusStep.commit e
      → Quorums ConsensusStep.finalized (finalized_by e p)
  unfolding finalized_by has_supermajority vote_stake
  finalized_by-Quorums e p q = ground (
    arith,
    bucket-remove_ne VotePhase.pre_vote VotePhase.commit e.votes (λ h. cc),
    bucket-remove_ne VotePhase.pre_commit VotePhase.commit e.votes (λ h. cc),
  )

  finalized_by-IsValid :
      (e : ConsensusEngine) (p : ConsensusProposal)
      → e.proposal ≡ some p
      → IsValid crypto e
      → e.step ≡ ConsensusStep.commit
      → has_supermajority e VotePhase.commit ≡ true
      → IsValid crypto (finalized_by e p)
  unfolding finalized_by proposes
  finalized_by-IsValid e p ep v es h =
      let c =
        finalize-Certificate e p
          (subst (λ o. Tally crypto e VotePhase.commit o (bucket VotePhase.commit e.votes)) ep
            (v.tallied VotePhase.commit))
          (v.sorted VotePhase.commit) h in
      record {
        tallied = finalized_by-Tally e p v.tallied;
        sorted = finalized_by-IsSorted e p v.sorted;
        quorums = finalized_by-Quorums e p (subst (λ s. Quorums s e) es v.quorums);
        fits = (p, ep);
        final = (
          record {
            height_is = c.height_is;
            round_is = c.round_is;
            distinct = c.distinct;
            counted = c.counted;
            quorum = c.quorum;
          },
          subst (λ o. proposes o p.block_hash ≡ true) (sym ep) (same_refl p.block_hash),
        );
      }

  -- A valid state at a phase with that phase's quorum moves on to a valid state.
  pub advance-IsValid :
      (e : ConsensusEngine) (q : VotePhase)
      → IsValid crypto e
      → expected_phase e.step ≡ some q
      → has_supermajority e q ≡ true
      → IsValid crypto (advance_after_quorum e q)
  unfolding advance_after_quorum has_supermajority vote_stake
  advance-IsValid e VotePhase.pre_vote v es h =
      let at = at_pre_vote e.step es in
      record {
        tallied = v.tallied;
        sorted = v.sorted;
        quorums = h;
        fits = subst (λ s. Fits s e.proposal) at v.fits;
        final = (unfinished crypto e e e.step e.finalized VotePhase.pre_vote es v.final).1;
      }
  advance-IsValid e VotePhase.pre_commit v es h =
      let at = at_pre_commit e.step es in
      record {
        tallied = v.tallied;
        sorted = v.sorted;
        quorums = (subst (λ s. Quorums s e) at v.quorums, h);
        fits = subst (λ s. Fits s e.proposal) at v.fits;
        final = (unfinished crypto e e e.step e.finalized VotePhase.pre_commit es v.final).1;
      }
  advance-IsValid e VotePhase.commit v es h =
      let (p, ep) = subst (λ s. Fits s e.proposal) (at_commit e.step es) v.fits in
      subst (IsValid crypto) (sym (finalize_lem e p ep))
        (finalized_by-IsValid e p ep v (at_commit e.step es) h)
