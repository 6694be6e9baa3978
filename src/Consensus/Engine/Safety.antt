-- ===== src/Consensus/Engine/Safety.antt =====
-- What an engine guarantees whatever messages and timeouts reach it.
use mathlib.Core.Path.{subst₂}
use the_open_network_x.Prelude.{
  ℕ, ◌*◌, ◌≤◌, ◌≡◌, refl, sym, ap, subst, ◌∙◌, true, Option, some, none, List, [], ◌∷◌, ok, arith,
}
use the_open_network_x.Prelude.Ord.{bytes_ord}
use the_open_network_x.Prelude.Words.{u64_max}
use the_open_network_x.Primitives.Hash.{Crypto}
use the_open_network_x.DataStructures.Shard.{ShardIdent}
use the_open_network_x.Consensus.Types.{ValidatorSetEntry}
use the_open_network_x.Consensus.Engine.Types.{
  VotePhase, ConsensusStep, ConsensusEngine, FinalizedBlock, RoundTimeouts, phase_ord,
}
use the_open_network_x.Consensus.Engine.{
  new, receive_proposal, receive_vote, on_timeout, is_finalized, expected_phase, proposes,
  has_supermajority,
}
use the_open_network_x.Consensus.Engine.Run.{Event, proposed, voted, ticked, step, run}
use the_open_network_x.Consensus.Engine.Certificate.{Certificate, by_validator, stake_sum}
use the_open_network_x.Consensus.Engine.Invariant.{Final, Quorums}
use the_open_network_x.Consensus.Engine.Preservation.{new-IsValid, run-IsValid}
use the_open_network_x.Consensus.Engine.ValidatorSet.{
  new-IsValidatorSet, run-SameHeight, new-validators,
}
use the_open_network_x.Consensus.Engine.Agreement.{shared_stake, certificates_overlap}

module _ (crypto : Crypto) where
  step-finalized_state :
      (e : ConsensusEngine) (x : Event) → e.step ≡ ConsensusStep.finalized → step crypto e x ≡ e
  unfolding step receive_proposal receive_vote on_timeout expected_phase is_finalized
  step-finalized_state e (proposed p) h = ground arith
  step-finalized_state e (voted v) h = ground arith
  step-finalized_state e (ticked now) h = ground arith

  -- Once a block is final, no further message or timeout changes anything of the engine.
  pub run-finalized :
      (e : ConsensusEngine) (xs : List Event)
      → e.step ≡ ConsensusStep.finalized
      → run crypto e xs ≡ e
  unfolding run
  run-finalized e [] h = refl
  run-finalized e (x ∷ xs) h = rw (step-finalized_state e x h) (run-finalized e xs h)

  Final-Certificate :
      (e : ConsensusEngine) (s : ConsensusStep) (o : Option FinalizedBlock) (fb : FinalizedBlock)
      → o ≡ some fb
      → Final crypto e s o
      → (s ≡ ConsensusStep.finalized)
        × Certificate crypto e fb
        × (proposes e.proposal fb.block_hash ≡ true)
  Final-Certificate e ConsensusStep.proposal o fb h f = absurd (ground arith)
  Final-Certificate e ConsensusStep.pre_vote o fb h f = absurd (ground arith)
  Final-Certificate e ConsensusStep.pre_commit o fb h f = absurd (ground arith)
  Final-Certificate e ConsensusStep.commit o fb h f = absurd (ground arith)
  Final-Certificate e ConsensusStep.finalized none fb h f = absurd f
  Final-Certificate e ConsensusStep.finalized (some g) fb h f =
      let g_is : g ≡ fb = cc in
      (
        refl,
        subst (Certificate crypto e) g_is f.0,
        subst (λ b. proposes e.proposal b.block_hash ≡ true) g_is f.1,
      )

  -- Whatever reaches an engine of `new`: if it holds a final block then it has stopped, the block is
  -- that of the round's proposal, the pre-vote and pre-commit quorums were reached, and the commit
  -- votes that it carries are a certificate: distinct validators of the set, each with a valid
  -- signature over this height, round, phase and block, holding together two thirds of the stake.
  pub finalized-Certificate :
      (shard : ShardIdent) (height : ℕ) (vs : List ValidatorSetEntry) (now : ℕ) (t : RoundTimeouts)
      (xs : List Event) (fb : FinalizedBlock) {e : ConsensusEngine}
      → new shard height vs now t ≡ ok e
      → (run crypto e xs).finalized ≡ some fb
      → ((run crypto e xs).step ≡ ConsensusStep.finalized)
        × (proposes (run crypto e xs).proposal fb.block_hash ≡ true)
        × (has_supermajority (run crypto e xs) VotePhase.pre_vote ≡ true)
        × (has_supermajority (run crypto e xs) VotePhase.pre_commit ≡ true)
        × Certificate crypto (run crypto e xs) fb
  finalized-Certificate shard height vs now t xs fb {e} made h =
      let d = run crypto e xs in
      let v = run-IsValid crypto e xs (new-IsValid crypto shard height vs now t made) in
      let (at, c, p) = Final-Certificate d d.step d.finalized fb h v.final in
      let q = subst (λ s. Quorums s d) at v.quorums in (at, p, q.0, q.1, c)

  -- Two nodes of one shard height with one validator set, whose stakes sum to at most the largest
  -- u64, fed any two sequences of messages: if each has finalized a block then validators holding at
  -- least a third of the total stake have signed the commit votes of both blocks.
  pub agreement :
      (shard : ShardIdent) (height : ℕ) (vs : List ValidatorSetEntry) (now now' : ℕ)
      (t t' : RoundTimeouts) (xs ys : List Event) (f g : FinalizedBlock) {e d : ConsensusEngine}
      → new shard height vs now t ≡ ok e
      → new shard height vs now' t' ≡ ok d
      → stake_sum e.validators ≤ u64_max
      → (run crypto e xs).finalized ≡ some f
      → (run crypto d ys).finalized ≡ some g
      → e.total_stake
        ≤ shared_stake e.validators (by_validator f.commit_votes) (by_validator g.commit_votes) * 3
  agreement shard height vs now now' t t' xs ys f g {e} {d} made made' exact hf hg =
      let a = run crypto e xs in
      let b = run crypto d ys in
      let (sames, samet) = new-validators shard height vs now now' t t' made made' in
      let (_, _, av, at) = run-SameHeight crypto e xs in
      let (_, _, bv, bt) = run-SameHeight crypto d ys in
      let cf = (finalized-Certificate shard height vs now t xs f made hf).4 in
      let cg = (finalized-Certificate shard height vs now' t' ys g made' hg).4 in
      let total = (new-IsValidatorSet shard height vs now t made).total_is in
      let summed : e.total_stake ≡ stake_sum e.validators = omega (arith, total) in
      let overlap =
        certificates_overlap crypto a b f g (bv ∙ sames ∙ sym av) (bt ∙ samet ∙ sym at)
          (at ∙ summed ∙ ap stake_sum (sym av)) cf cg in
      subst₂
        (λ v s. s ≤ shared_stake v (by_validator f.commit_votes) (by_validator g.commit_votes) * 3)
        av at overlap
