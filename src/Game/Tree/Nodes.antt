-- ===== src/Game/Tree/Nodes.antt =====
-- The nodes of the tree of tree.rs: decisions, and the ends of hands.
use vibe_poker.Base.{
  ℕ, zero, suc, ◌+◌, ◌≤◌, ◌<◌, ◌≡◌, refl, ◌∙◌, ap, Bool, ◌||◌, true, false, List, [], ◌∷◌, map,
  some, arith, get_elem?, get_elem?_total, length, count_if, inl, inr, ◌⊎◌, All,
}
use vibe_poker.Core.Card.{Card}
use vibe_poker.Core.Deck.{Deck, deal, deal_many}
use vibe_poker.Game.State.{
  PlayerState, GameState, Street, preflop, flop, turn, PlayerStatus, is_active, is_all_in, is_out,
  is_folded, is_in,
}
use vibe_poker.Game.Event.{EngineEvent}
use vibe_poker.Game.Betting.Ledger.{Ledger, chips}
use vibe_poker.Game.Betting.Live.{Live}
use vibe_poker.Game.Showdown.Conservation.{stacks, AreDealt}
use vibe_poker.Game.Tree.{Phase, decision, terminal, GameTree, Step}

-- The cards still to come after a street is dealt.
abbrev pub left : Street → ℕ
left preflop = 5
left flop = 2
left turn = 1
left _ = 0

-- A hand in which two players or more are left, with its books in order. Where antes are posted, or
-- dead hands leave one player, the hand need not be so.
pub record Sound (bound total : ℕ) (s : GameState) : Type 0 where
  pub books : Ledger s.players s.pot
  pub lives : All (Live s.current_bet) s.players
  pub kept : chips s.players ≡ total
  pub contested : 2 ≤ count_if is_in s.players
  pub chips_bound : total ≤ bound
  pub bet_bound : s.current_bet ≤ bound
  pub increment_bound : s.min_raise_increment ≤ bound
  pub increment_pos : 0 < s.min_raise_increment

pub record Dealable (board : ℕ) (d : Deck) (cards : ℕ) : Type 0 where
  pub enough : d.cursor + cards ≤ length d.cards
  pub fills : board + cards ≡ 5

-- A node of the tree: at a decision a player who may act is asked, and at the end the stacks hold
-- all the chips of the hand.
pub record Asked (bound total seat : ℕ) (hr : List Bool) (s : GameState) (d : Deck) : Type 0 where
  pub sound : Sound bound total s
  pub dealable : Dealable (length s.board) d (left s.street)
  pub answers : length hr ≡ length s.players
  pub player : PlayerState
  pub seated : get_elem? s.players seat ≡ some player
  pub active : is_active player.status ≡ true

abbrev pub NodeAt : ℕ → ℕ → Phase → GameState → Deck → Type 0
NodeAt bound total (decision seat hr) s d = Asked bound total seat hr s d
NodeAt bound total (terminal deltas) s d = stacks s.players ≡ total

abbrev pub IsNode : ℕ → ℕ → GameTree → Type 0
IsNode bound total t = NodeAt bound total t.phase t.state t.deck

abbrev pub Leads : ℕ → ℕ → Step → Type 0
Leads bound total o =
    (t : GameTree) × (es : List EngineEvent) × (o ≡ some (t, es)) × IsNode bound total t

pub deal_many-total :
    (n : ℕ) (d : Deck)
    → d.cursor + n ≤ length d.cards
    → (cs : List Card) × (e : Deck) × (deal_many n d ≡ some (cs, e))
      × (length cs ≡ n)
      × (e.cursor ≡ d.cursor + n)
      × (e.cards ≡ d.cards)
unfolding deal_many deal
deal_many-total zero d h = ([], d, refl, refl, omega arith, refl)
deal_many-total (suc n) d h =
    let (c, found) = get_elem?_total d.cards d.cursor (omega arith) in
    let (cs, e, dealt, len, at, same) =
      deal_many-total n (record d { cursor = d.cursor + 1 }) (omega arith) in
    (c ∷ cs, e, rw (found, dealt) refl, ap suc len, omega (arith, at), same)

abbrev pub cards_of : List (Street × ℕ) → ℕ
cards_of [] = 0
cards_of ((street, n) ∷ streets) = n + cards_of streets

-- A list of streets that ends the board.
abbrev pub Ordered : List (Street × ℕ) → Type 0
Ordered [] = Unit
Ordered ((street, n) ∷ streets) = (left street ≡ cards_of streets) × Ordered streets

-- Players without a bet are what the start of a street makes of them.
pub clear-same :
    (ps : List PlayerState)
    → All (Live 0) ps
    → map (λ (p : PlayerState). record p { bet_this_street = 0 }) ps ≡ ps
clear-same [] a = refl
clear-same (p ∷ ps) (l, a) =
    ap
      (λ b.
        record p { bet_this_street = b }
        ∷ map (λ (q : PlayerState). record q { bet_this_street = 0 }) ps)
      (omega (arith, l.matched))
    ∙ ap (◌∷◌ p) (clear-same ps a)

pub not_folded :
    (st : PlayerStatus)
    → is_folded st ≡ false
    → ((is_active st || is_all_in st) ≡ true) ⊎ (is_out st ≡ true)
not_folded PlayerStatus.active h = inl refl
not_folded PlayerStatus.folded h = absurd (ground arith)
not_folded PlayerStatus.all_in h = inl refl
not_folded PlayerStatus.out h = inr refl

pub in_hand :
    (st : PlayerStatus)
    → (is_active st || is_all_in st) ≡ true
    → (is_folded st ≡ false) × ((is_active st ≡ true) ⊎ (is_all_in st ≡ true))
in_hand PlayerStatus.active h = (refl, inl refl)
in_hand PlayerStatus.folded h = absurd (ground arith)
in_hand PlayerStatus.all_in h = (refl, inr refl)
in_hand PlayerStatus.out h = absurd (ground arith)

pub Live-AreDealt : (ps : List PlayerState) → All (Live 0) ps → AreDealt ps
Live-AreDealt [] a = tt
Live-AreDealt (p ∷ ps) (l, a) = (
  λ f c. elim (not_folded p.status f) [
    | inl h ↦ l.dealt h
    | inr h ↦ absurd (omega (arith, c, l.outside h))
  ],
  Live-AreDealt ps a,
)

pub Live-staked :
    (p : PlayerState)
    → Live 0 p
    → is_in p ≡ true
    → (is_folded p.status ≡ false) × (0 < p.total_committed)
Live-staked p l h = (
  (in_hand p.status h).0,
  elim ((in_hand p.status h).1) [ inl a ↦ omega (arith, l.owing a) | inr a ↦ l.staked a ],
)
