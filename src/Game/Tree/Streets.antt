-- ===== src/Game/Tree/Streets.antt =====
-- The streets that tree.rs runs out once no betting is left.
use vibe_poker.Base.{
  ℕ, ◌≤◌, ◌<◌, ◌≡◌, refl, ◌∙◌, ap, Bool, true, false, List, [], ◌∷◌, ◌++◌, Option, none, some,
  ◌>>=◌, arith, length, length-append, length-replicate, replicate, count_if, leb, if◌then◌else◌,
  All, All-get,
}
use vibe_poker.Core.Card.{Card}
use vibe_poker.Core.Deck.{Deck}
use vibe_poker.Game.State.{PlayerState, GameState, Pot, Street, showdown, is_active, is_in}
use vibe_poker.Game.Event.{board_dealt}
use vibe_poker.Game.Pots.{collect_street_bets}
use vibe_poker.Game.Betting.Ledger.{Ledger, chips}
use vibe_poker.Game.Betting.Live.{Live}
use vibe_poker.Game.Showdown.Conservation.{resolve_showdown_conserves}
use vibe_poker.Game.Showdown.Uncontested.{collect_street_bets-Ledger}
use vibe_poker.Game.Hand.{
  next_active_after, begin_street, deal_board_cards, deal_remaining_board, active_count,
}
use vibe_poker.Game.Tree.{Engine, terminal, Step, run_streets, ask}
use vibe_poker.Game.Tree.Seats.{position_from-found, first_after-found}
use vibe_poker.Game.Tree.Nodes.{
  left, Dealable, Asked, Leads, cards_of, Ordered, deal_many-total, clear-same, Live-AreDealt,
  Live-staked,
}

choice-Leads :
    (bound total : ℕ) (b : Bool) (o : Option ℕ) (f : ℕ → Step) (r : Step)
    → ((k : ℕ) → o ≡ some k → Leads bound total (f k))
    → Leads bound total r
    → Leads bound total (if b then (elim o [ some k ↦ f k | none ↦ r ]) else r)
choice-Leads bound total false o f r h k = k
choice-Leads bound total true none f r h k = k
choice-Leads bound total true (some x) f r h k = h x refl

-- The hand between two streets: nobody has a bet.
pub record Between (bound total : ℕ) (ps : List PlayerState) (pot : Pot) : Type 0 where
  pub books : Ledger ps pot
  pub lives : All (Live 0) ps
  pub kept : chips ps ≡ total
  pub contested : 2 ≤ count_if is_in ps

Between-collected :
    (bound total : ℕ) (ps : List PlayerState) (pot : Pot)
    → Between bound total ps pot
    → let c = collect_street_bets ps pot in Between bound total c.0 c.1
unfolding collect_street_bets
Between-collected bound total ps pot b =
    let (books, kept, _, _) = collect_street_bets-Ledger ps pot b.books in
    let same = clear-same ps b.lives in
    record {
      books = books;
      lives = rw same b.lives;
      kept = kept ∙ b.kept;
      contested = rw same b.contested;
    }

module _ (engine : Engine) (bound total : ℕ) (small : total ≤ bound)
    (blind : engine.rules.big_blind ≤ bound) (blind_pos : 0 < engine.rules.big_blind) where
  open engine use {rules, rank_7}

  shown :
      (s : GameState) (d : Deck)
      → Between bound total s.players s.pot
      → Dealable (length s.board) d 0
      → Leads bound total (run_streets engine [] s d)
  unfolding run_streets deal_remaining_board
  shown s d b f =
      let full : length s.board ≡ 5 = omega (arith, f.fills) in
      let (k, p, _, found, passes) =
        position_from-found 0 is_in s.players (omega (arith, b.contested)) in
      let (live, chips_in) = Live-staked p (All-get (Live 0) s.players k p b.lives found) passes in
      let (t, deltas, done, _, all_chips) =
        resolve_showdown_conserves rank_7 (record s { street = showdown }) k p full b.books.bounded
          (Live-AreDealt s.players b.lives) found live chips_in in
      (
        record { state = t; deck = d; phase = terminal deltas },
        [],
        rw full (rw done refl),
        all_chips ∙ b.kept,
      )

  opened-Asked :
      (s : GameState) (d : Deck) (street : Street) (cs : List Card) (first : ℕ)
      → Between bound total s.players s.pot
      → Dealable (length (s.board ++ cs)) d (left street)
      → let t = record (begin_street rules s street) { board = s.board ++ cs } in
        next_active_after t.dealer t.players ≡ some first
        → Asked bound total first
            (replicate (length t.players) false)
            (record t { action_on = some first })
            d
  unfolding begin_street next_active_after
  opened-Asked s d street cs first b f h =
      let same = clear-same s.players b.lives in
      let (p, seated, active) =
        first_after-found (λ (q : PlayerState). is_active q.status) _ _ _ 1 first h in
      record {
        sound = record {
          books = rw same b.books;
          lives = rw same b.lives;
          kept = rw same b.kept;
          contested = rw same b.contested;
          chips_bound = small;
          bet_bound = omega arith;
          increment_bound = blind;
          increment_pos = blind_pos;
        };
        dealable = f;
        answers = length-replicate _ false;
        player = p;
        seated = seated;
        active = active;
      }

  pub run_streets-Leads :
      (streets : List (Street × ℕ)) (s : GameState) (d : Deck)
      → Ordered streets
      → Between bound total s.players s.pot
      → Dealable (length s.board) d (cards_of streets)
      → Leads bound total (run_streets engine streets s d)
  unfolding run_streets deal_board_cards
  run_streets-Leads [] s d o b f = shown s d b f
  run_streets-Leads ((street, n) ∷ streets) s d o b f =
      let (cs, e, dealt, len, at, same_cards) = deal_many-total n d (omega (arith, f.enough)) in
      let t = record (begin_street rules s street) { board = s.board ++ cs } in
      let same : t.players ≡ s.players = clear-same s.players b.lives in
      let next : Dealable (length (s.board ++ cs)) e (cards_of streets) = record {
        enough = omega (arith, at, ap length same_cards, f.enough);
        fills = omega (arith, length-append s.board cs, len, f.fills);
      } in
      let between : Between bound total t.players t.pot = rw same b in
      let collected = collect_street_bets t.players t.pot in
      let (tree, es, runs, node) =
        run_streets-Leads streets (record t { players = collected.0; pot = collected.1 }) e o.1
          (Between-collected bound total t.players t.pot between) next in
      let rest : Step = do
        (tree, fs) ←
            run_streets engine streets (record t { players = collected.0; pot = collected.1 }) e
        some (tree, (board_dealt street cs ∷ []) ++ fs)
      in let opened : ℕ → Step = λ first.
        some (ask t e first (replicate (length t.players) false), board_dealt street cs ∷ []) in
        rw dealt (
          choice-Leads bound total (leb 2 (active_count t.players))
            (next_active_after t.dealer t.players) opened rest
            (λ first h. (_, _, refl, opened-Asked s e street cs first b (rw o.0 next) h))
            (tree, (board_dealt street cs ∷ []) ++ es, rw runs refl, node))
