-- ===== src/Consensus/Engine/Preservation.antt =====
-- Every call of the engine keeps its invariant.
use the_open_network_x.Prelude.{
  ℕ, ◌≡◌, ◌≢◌, refl, subst, Bool, false, Option, some, none, List, [], ◌∷◌, All, ok, ◌⊎◌, inl, inr,
  arith, Bool-cases, Result-cases, null, ◌-◌, ltb, ◌||◌,
}
use the_open_network_x.Prelude.Ord.{bytes_ord, nat_ord}
use the_open_network_x.Prelude.BTreeMap.{BTreeMap, lookup}
use the_open_network_x.Primitives.Hash.{Crypto}
use the_open_network_x.DataStructures.Shard.{ShardIdent}
use the_open_network_x.Consensus.Types.{ValidatorSetEntry}
use the_open_network_x.Consensus.Engine.Types.{
  VotePhase, ConsensusStep, ConsensusProposal, ConsensusVote, ConsensusEngine, FinalizedBlock,
  RoundTimeouts, phase_ord,
}
use the_open_network_x.Consensus.Engine.{
  new, collect, bucket, has_supermajority, is_finalized, record_vote, count_vote, expected_phase,
  receive_proposal, install_proposal, receive_vote, on_timeout, timeout_for_step,
}
use the_open_network_x.Consensus.Engine.Votes.{IsAccepted, receive_vote_inv}
use the_open_network_x.Consensus.Engine.Certificate.{Counted}
use the_open_network_x.Consensus.Engine.Invariant.{Tally, Final, IsValid}
use the_open_network_x.Consensus.Engine.Run.{Event, proposed, voted, ticked, after, step, run}
use the_open_network_x.Consensus.Engine.Counting.{record_vote-IsValid}
use the_open_network_x.Consensus.Engine.Finishing.{advance-IsValid}

running : (a b : Bool) → (a || b) ≡ false → a ≡ false
running a b h = ground arith

-- The engine at the start of a height.
abbrev pub fresh :
    ShardIdent → ℕ → BTreeMap ℕ ValidatorSetEntry → ℕ → ℕ → RoundTimeouts → ConsensusEngine
fresh shard height m sum now t = record {
  shard = shard;
  height = height;
  validators = m;
  total_stake = sum;
  timeouts = t;
  round_started_at = now;
  round = 0;
  step = ConsensusStep.proposal;
  proposal = none;
  votes = [];
  finalized = none;
}

pub new_inv :
    (shard : ShardIdent) (height : ℕ) (vs : List ValidatorSetEntry) (now : ℕ) (t : RoundTimeouts)
    {e : ConsensusEngine}
    → new shard height vs now t ≡ ok e
    → (m : BTreeMap ℕ ValidatorSetEntry) × (sum : ℕ) × (collect vs [] 0 ≡ ok (m, sum))
      × (null m ≡ false)
      × (sum ≢ 0)
      × (e ≡ fresh shard height m sum now t)
unfolding new
new_inv shard height vs now t h = elim (Result-cases (collect vs [] 0)) [
  | inl (c, made) ↦ (c.0, c.1, made, ground arith, ground arith, ground arith)
  | inr (x, failed) ↦ absurd (ground arith)
]

module _ (crypto : Crypto) where
  count_vote-IsValid :
      (e : ConsensusEngine) (vote : ConsensusVote)
      → IsAccepted crypto e vote
      → IsValid crypto e
      → IsValid crypto (count_vote e vote.phase vote)
  unfolding count_vote
  count_vote-IsValid e vote a v =
      let recorded = record_vote-IsValid crypto e vote a v in
      elim (Bool-cases (has_supermajority (record_vote e vote) vote.phase)) [
        | inl quorum ↦ rw quorum (
            advance-IsValid crypto (record_vote e vote) vote.phase recorded
              (same_step e vote a.expected) quorum)
        | inr short ↦ rw short recorded
      ]
    where
      same_step :
          (e : ConsensusEngine) (vote : ConsensusVote)
          → expected_phase e.step ≡ some vote.phase
          → expected_phase (record_vote e vote).step ≡ some vote.phase
      same_step e vote h = unfold record_vote in h

  receive_vote-IsValid :
      (e : ConsensusEngine) (vote : ConsensusVote)
      → IsValid crypto e
      → IsValid crypto (after e (receive_vote crypto e vote))
  receive_vote-IsValid e vote v = elim (Result-cases (receive_vote crypto e vote)) [
    | inl (e', h) ↦ rw h (elim (receive_vote_inv crypto e vote h) [
      | inl late ↦ rw late v
      | inr (a, counted) ↦ rw counted (count_vote-IsValid e vote a v)
    ])
    | inr (x, h) ↦ rw h v
  ]

  -- A proposal that does not fail either repeats the one there is or opens the pre-vote.
  pub receive_proposal_inv :
      (e : ConsensusEngine) (p : ConsensusProposal) {e' : ConsensusEngine}
      → receive_proposal crypto e p ≡ ok e'
      → (e' ≡ e)
        ⊎ ((e.proposal ≡ none)
            × (is_finalized e.step ≡ false)
            × (e' ≡ record e { proposal = some p; step = ConsensusStep.pre_vote }))
  unfolding receive_proposal install_proposal
  receive_proposal_inv e p h = ground arith

  no_block :
      (e : ConsensusEngine) (s : ConsensusStep) (o : Option FinalizedBlock)
      → is_finalized s ≡ false
      → Final crypto e s o
      → o ≡ none
  unfolding is_finalized
  no_block e ConsensusStep.proposal o h f = f
  no_block e ConsensusStep.pre_vote o h f = f
  no_block e ConsensusStep.pre_commit o h f = f
  no_block e ConsensusStep.commit o h f = f
  no_block e ConsensusStep.finalized o h f = absurd (ground arith)

  -- The state that a first proposal opens.
  opened-IsValid :
      (e : ConsensusEngine) (p : ConsensusProposal)
      → e.proposal ≡ none
      → is_finalized e.step ≡ false
      → IsValid crypto e
      → IsValid crypto (record e { proposal = some p; step = ConsensusStep.pre_vote })
  unfolding is_finalized
  opened-IsValid e p ep nf v = record {
    tallied =
        λ q. opened_tally q (subst (λ o. Tally crypto e q o (bucket q e.votes)) ep (v.tallied q));
    sorted = v.sorted;
    quorums = tt;
    fits = (p, refl);
    final = no_block e e.step e.finalized nf v.final;
  }
    where
      opened_tally :
          (q : VotePhase)
          → bucket q e.votes ≡ []
          → All (Counted crypto e q p.block_hash) (bucket q e.votes)
      opened_tally q empty = rw empty tt

  receive_proposal-IsValid :
      (e : ConsensusEngine) (p : ConsensusProposal)
      → IsValid crypto e
      → IsValid crypto (after e (receive_proposal crypto e p))
  receive_proposal-IsValid e p v = elim (Result-cases (receive_proposal crypto e p)) [
    | inl (e', h) ↦ rw h (elim (receive_proposal_inv e p h) [
      | inl again ↦ rw again v
      | inr (ep, nf, opened) ↦ rw opened (opened-IsValid e p ep nf v)
    ])
    | inr (x, h) ↦ rw h v
  ]

  -- A new round starts with no proposal, no votes and no block.
  on_timeout-IsValid :
      (e : ConsensusEngine) (now : ℕ) → IsValid crypto e → IsValid crypto (on_timeout e now).0
  unfolding on_timeout bucket lookup
  on_timeout-IsValid e now v =
      elim (Bool-cases
        (is_finalized e.step || ltb (now - e.round_started_at) (timeout_for_step e))) [
          | inl stay ↦ rw stay v
          | inr move ↦ rw move (record {
            tallied = λ q. refl;
            sorted = λ q. tt;
            quorums = tt;
            fits = refl;
            final = no_block e e.step e.finalized (running (is_finalized e.step) _ move) v.final;
          })
        ]

  -- Every message and every timeout keeps the invariant.
  pub step-IsValid :
      (e : ConsensusEngine) (x : Event) → IsValid crypto e → IsValid crypto (step crypto e x)
  unfolding step
  step-IsValid e (proposed p) v = receive_proposal-IsValid e p v
  step-IsValid e (voted vote) v = receive_vote-IsValid e vote v
  step-IsValid e (ticked now) v = on_timeout-IsValid e now v

  pub run-IsValid :
      (e : ConsensusEngine) (xs : List Event) → IsValid crypto e → IsValid crypto (run crypto e xs)
  unfolding run
  run-IsValid e [] v = v
  run-IsValid e (x ∷ xs) v = run-IsValid (step crypto e x) xs (step-IsValid e x v)

  fresh-IsValid :
      (shard : ShardIdent) (height : ℕ) (m : BTreeMap ℕ ValidatorSetEntry) (sum now : ℕ)
      (t : RoundTimeouts)
      → IsValid crypto (fresh shard height m sum now t)
  unfolding bucket lookup
  fresh-IsValid shard height m sum now t = record {
    tallied = λ q. refl;
    sorted = λ q. tt;
    quorums = tt;
    fits = refl;
    final = refl;
  }

  -- So does the start of a height.
  pub new-IsValid :
      (shard : ShardIdent) (height : ℕ) (vs : List ValidatorSetEntry) (now : ℕ) (t : RoundTimeouts)
      {e : ConsensusEngine}
      → new shard height vs now t ≡ ok e
      → IsValid crypto e
  new-IsValid shard height vs now t h =
      let (m, sum, _, _, _, e_is) = new_inv shard height vs now t h in
      rw e_is (fresh-IsValid shard height m sum now t)
