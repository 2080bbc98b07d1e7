-- ===== src/Game/Tree/Play.antt =====
-- tree.rs: a hand played from a node by a list of submissions, as a solver walks the tree.
use vibe_poker.Base.{ℕ, ◌+◌, ◌≤◌, ◌<◌, ◌≡◌, refl, List, [], ◌∷◌, Option, some, ◌>>=◌, u32_mod}
use vibe_poker.Game.State.{GameState}
use vibe_poker.Game.Action.{Action}
use vibe_poker.Core.Deck.{Deck}
use vibe_poker.Game.Tree.{Engine, Phase, decision, terminal, GameTree, step}
use vibe_poker.Game.Tree.Nodes.{NodeAt, IsNode}
use vibe_poker.Game.Tree.Conservation.{step_conserves}

-- The submissions in their order, up to the end of the hand.
unfoldable pub play : Engine → GameTree → List Action → Option GameTree
unfolding step
play engine t [] = some t
play engine t (a ∷ actions) = elim t.phase [
  | terminal _ ↦ some t
  | decision _ _ ↦ (do (next, es) ← step engine t a; play engine next actions)
]

module _ (engine : Engine) (bound total : ℕ) (room : bound + bound < u32_mod)
    (blind : engine.rules.big_blind ≤ bound) (blind_pos : 0 < engine.rules.big_blind) where
  play-IsNode :
      (actions : List Action) (phase : Phase) (s : GameState) (d : Deck)
      → NodeAt bound total phase s d
      → (t : GameTree) × (play engine (record { state = s; deck = d; phase = phase }) actions
          ≡ some t)
        × IsNode bound total t
  unfolding play
  play-IsNode [] phase s d n = (record { state = s; deck = d; phase = phase }, refl, n)
  play-IsNode (a ∷ actions) (terminal deltas) s d n = (_, refl, n)
  play-IsNode (a ∷ actions) (decision seat hr) s d n =
      let (next, es, runs, node) =
        step_conserves engine bound total (record { state = s; deck = d; phase = decision seat hr })
          seat hr a room blind blind_pos refl n in
      let (t, played, end) = play-IsNode actions next.phase next.state next.deck node in
      (t, rw (runs, played) refl, end)

  -- From a decision, or from an end of a hand where the stacks hold all its chips, however the hand
  -- is played on and however long, no step panics, and the hand stands at such a node again. A
  -- decision is one of a player who may act, where two players or more are in the hand; the pot and
  -- the bets of the street are the players' stakes; nobody's bet is above the bet to match (so that
  -- no ante counts as a bet of the street); a player in the hand has cards, and chips at stake or
  -- still owes the bet, and one who may act has a stack; who is out has nothing at stake; and the
  -- deck has the cards for the rest of the board. It is assumed that twice the bound fits a `u32`,
  -- and that the big blind is positive and within the bound.
  pub play_conserves :
      (actions : List Action) (t : GameTree)
      → IsNode bound total t
      → (end : GameTree) × (play engine t actions ≡ some end) × IsNode bound total end
  play_conserves actions t n = play-IsNode actions t.phase t.state t.deck n
