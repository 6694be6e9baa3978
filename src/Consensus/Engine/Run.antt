-- ===== src/Consensus/Engine/Run.antt =====
-- Runs of the engine: the messages and the clock, in the order in which they reach it.
use the_open_network_x.Prelude.{ℕ, List, [], ◌∷◌, Result, ok, err}
use the_open_network_x.Primitives.Hash.{Crypto}
use the_open_network_x.Consensus.Types.{ConsensusError}
use the_open_network_x.Consensus.Engine.Types.{ConsensusProposal, ConsensusVote, ConsensusEngine}
use the_open_network_x.Consensus.Engine.{receive_proposal, receive_vote, on_timeout}

pub data Event : Type 0 where
  proposed : ConsensusProposal → Event
  voted : ConsensusVote → Event
  ticked : ℕ → Event

-- A call that fails leaves the engine as it was.
abbrev pub after : ConsensusEngine → Result ConsensusError ConsensusEngine → ConsensusEngine
after e (ok e') = e'
after e (err x) = e

module _ (crypto : Crypto) where
  unfoldable pub step : ConsensusEngine → Event → ConsensusEngine
  step e (proposed p) = after e (receive_proposal crypto e p)
  step e (voted v) = after e (receive_vote crypto e v)
  step e (ticked now) = (on_timeout e now).0

  unfoldable pub run : ConsensusEngine → List Event → ConsensusEngine
  run e [] = e
  run e (x ∷ xs) = run (step e x) xs
