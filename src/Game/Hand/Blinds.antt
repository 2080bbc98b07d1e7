-- ===== src/Game/Hand/Blinds.antt =====
-- engine.rs: the players that `init_state` makes, and what `post_blinds` makes of them.
use vibe_poker.Base.{
  ℕ, zero, suc, ◌+◌, ◌-◌, ◌≤◌, ◌<◌, ◌≡◌, refl, sym, ◌∙◌, ap, true, List, [], ◌∷◌, ◌++◌, map, some,
  ◌>>=◌, min, arith, get_elem?, get_elem?-lt, get_elem?-set_ne, set, length, length-set, Bool,
  count_if, sum_of, All, All-set, Bool-cases, Option-cases, inl, inr, ◌==◌, u32_mod, add32_fits,
  sub32, sub32_fits,
}
use vibe_poker.Game.State.{
  PlayerState, GameState, BettingRules, is_active, is_all_in, is_out, is_in,
}
use vibe_poker.Game.Event.{EngineEvent}
use vibe_poker.Game.Betting.{pay, settle, put}
use vibe_poker.Game.Betting.Ledger.{Ledger, Trade, Trade-Ledger, chips, bets, stakes}
use vibe_poker.Game.Hand.{
  init_state, new_player, seat_passes, first_after, next_active_after_in_list, sb_seat, bb_seat,
  post_amount, post, post_blinds,
}
use vibe_poker.Game.Hand.Seats.{first_after-IsNext, IsNext-other, another, present}

-- What is so of a player before the cards are dealt, where `bet` is the bet to match.
pub record Seated (bet : ℕ) (p : PlayerState) : Type 0 where
  pub matched : p.bet_this_street ≤ bet
  pub stocked : is_active p.status ≡ true → 0 < p.stack
  pub owing : is_active p.status ≡ true → 0 < p.total_committed + (bet - p.bet_this_street)
  pub staked : is_all_in p.status ≡ true → 0 < p.total_committed
  pub outside : is_out p.status ≡ true → p.total_committed ≡ 0

new_player-Seated : (bet stack : ℕ) → 0 < bet → Seated bet (new_player stack)
new_player-Seated bet stack h = record {
  matched = omega arith;
  stocked = λ a. ground arith;
  owing = λ a. omega arith;
  staked = λ a. ground arith;
  outside = λ a. refl;
}

pub players-Seated :
    (bet : ℕ) (stacks : List ℕ) → 0 < bet → All (Seated bet) (map new_player stacks)
players-Seated bet [] h = tt
players-Seated bet (x ∷ xs) h = (new_player-Seated bet x h, players-Seated bet xs h)

pub new-sums :
    (stacks : List ℕ)
    → (chips (map new_player stacks) ≡ sum_of (λ x. x) stacks)
      × (bets (map new_player stacks) ≡ 0)
      × (stakes (map new_player stacks) ≡ 0)
      × All (λ (p : PlayerState). p.bet_this_street ≤ p.total_committed) (map new_player stacks)
new-sums [] = (refl, refl, refl, tt)
new-sums (x ∷ xs) =
    let (c, b, s, w) = new-sums xs in
    (omega (arith, c), omega (arith, b), omega (arith, s), (omega arith, w))

new_player-found :
    (stacks : List ℕ) (i : ℕ) (p : PlayerState)
    → get_elem? (map new_player stacks) i ≡ some p
    → (stack : ℕ) × (p ≡ new_player stack) × (stack ≤ sum_of (λ x. x) stacks)
new_player-found [] i p h = absurd (ground arith)
new_player-found (x ∷ xs) zero p h = (x, ground arith, omega arith)
new_player-found (x ∷ xs) (suc i) p h =
    let (stack, e, le) = new_player-found xs i p h in (stack, e, omega (arith, le))

-- A new player in the hand posts.
pub post_amount-new :
    (bet amount stack seat : ℕ)
    → 0 < bet
    → amount ≤ bet
    → stack < u32_mod
    → is_in (new_player stack) ≡ true
    → let q = (post_amount seat amount (new_player stack)).0 in
      Trade (new_player stack) q × Seated bet q × (is_in q ≡ true)
unfolding post_amount pay settle
post_amount-new bet amount stack seat h le fits on =
    let paid = min amount stack in
    let some_chips : 0 < stack = ground arith in
    let e = sub32_fits stack paid (omega arith) fits in
    let b = add32_fits 0 paid (omega (arith, fits)) in
    elim (Bool-cases (sub32 stack paid == 0)) [
      | inl z ↦ rw z (
        record {
          kept = omega (arith, e, b);
          staked = omega (arith, b);
          covered = omega (arith, b);
        },
        record {
          matched = omega (arith, b);
          stocked = λ a. absurd (ground arith);
          owing = λ a. absurd (ground arith);
          staked = λ a. ground (arith, e, b);
          outside = λ a. absurd (ground arith);
        },
        refl,
      )
      | inr z ↦ rw z (
        record {
          kept = omega (arith, e, b);
          staked = omega (arith, b);
          covered = omega (arith, b);
        },
        record {
          matched = omega (arith, b);
          stocked = λ a. ground (arith, e);
          owing = λ a. omega (arith, b);
          staked = λ a. absurd (ground arith);
          outside = λ a. absurd (ground arith);
        },
        on,
      )
    ]

passing :
    (test : PlayerState → Bool) (ps : List PlayerState) (seat : ℕ)
    → seat_passes test ps seat ≡ true
    → (p : PlayerState) × (get_elem? ps seat ≡ some p) × (test p ≡ true)
passing test ps seat h = elim (Option-cases (get_elem? ps seat)) [
  | inl e ↦ absurd (ground arith)
  | inr (p, e) ↦ (p, e, ground arith)
]

count_if-set_same :
    (test : PlayerState → Bool) (ps : List PlayerState) (i : ℕ) (p q : PlayerState)
    → get_elem? ps i ≡ some p
    → test p ≡ true
    → test q ≡ true
    → count_if test (set ps i q) ≡ count_if test ps
count_if-set_same test [] i p q g h k = refl
count_if-set_same test (x ∷ xs) zero p q g h k =
    let same : x ≡ p = ground arith in
    let before : test x ≡ true = ap test same ∙ h in rw (before, k) refl
count_if-set_same test (x ∷ xs) (suc i) p q g h k =
    omega (arith, count_if-set_same test xs i p q g h k)

-- The players around the posting of a hand's blinds.
pub record Posted (bet total : ℕ) (s t : GameState) : Type 0 where
  pub books : Ledger t.players t.pot
  pub kept : chips t.players ≡ total
  pub seated : All (Seated bet) t.players
  pub present : count_if is_in t.players ≡ count_if is_in s.players
  pub count : length t.players ≡ length s.players
  pub same : t ≡ record s { players = t.players }

-- A player who is new in the hand posts.
post-Posted :
    (bet amount total seat stack : ℕ) (s t : GameState)
    → 0 < bet
    → amount ≤ bet
    → stack < u32_mod
    → Posted bet total s t
    → get_elem? t.players seat ≡ some (new_player stack)
    → is_in (new_player stack) ≡ true
    → (q : PlayerState) × (es : List EngineEvent) × (post t seat amount ≡ some (put t seat q, es))
      × Posted bet total s (put t seat q)
unfolding post
post-Posted bet amount total seat stack s t h le fits o g on =
    let q = (post_amount seat amount (new_player stack)).0 in
    let (trade, here, still) = post_amount-new bet amount stack seat h le fits on in
    let (books, same_chips) =
      Trade-Ledger t.players t.pot seat (new_player stack) q g trade o.books in
    (
      q,
      (post_amount seat amount (new_player stack)).1,
      rw g refl,
      record {
        books = books;
        kept = same_chips ∙ o.kept;
        seated = All-set (Seated bet) t.players seat q o.seated here;
        present =
            count_if-set_same is_in t.players seat (new_player stack) q g on still ∙ o.present;
        count = length-set t.players seat q ∙ o.count;
        same = ap (λ (x : GameState). record x { players = set t.players seat q }) o.same;
      },
    )

start-Posted :
    (rules : BettingRules) (hand_id dealer : ℕ) (stacks : List ℕ)
    → 0 < rules.big_blind
    → sum_of (λ x. x) stacks < u32_mod
    → let s = init_state rules hand_id stacks dealer in
      Posted rules.big_blind (sum_of (λ x. x) stacks) s s
unfolding init_state
start-Posted rules hand_id dealer stacks h fits =
    let (c, b, k, w) = new-sums stacks in
    record {
      books = record {
        bounded = omega (arith, c);
        within = w;
        balanced = omega (arith, b, k);
        no_side = refl;
      };
      kept = c;
      seated = players-Seated rules.big_blind stacks h;
      present = refl;
      count = refl;
      same = refl;
    }

sb_seat-found :
    (s : GameState) (sb : ℕ)
    → first_after is_in s.players s.dealer (length s.players) 1 ≡ some sb
    → sb_seat s ≡ sb
unfolding sb_seat next_active_after_in_list
sb_seat-found s sb h = rw h refl

bb_seat-found :
    (s : GameState) (sb bb : ℕ)
    → sb_seat s ≡ sb
    → first_after is_in s.players sb (length s.players) 1 ≡ some bb
    → bb_seat s ≡ bb
unfolding bb_seat next_active_after_in_list
bb_seat-found s sb bb e h = rw (e, h) refl

post_blinds-run :
    (rules : BettingRules) (s s1 s2 : GameState) (sb bb : ℕ) (es fs : List EngineEvent)
    → sb_seat s ≡ sb
    → bb_seat s ≡ bb
    → post s sb rules.small_blind ≡ some (s1, es)
    → post s1 bb rules.big_blind ≡ some (s2, fs)
    → post_blinds rules s
      ≡ some (
        record s2 { current_bet = rules.big_blind; min_raise_increment = rules.big_blind },
        es ++ fs,
      )
unfolding post_blinds
post_blinds-run rules s s1 s2 sb bb es fs a b run1 run2 =
    let ends = λ (es : List EngineEvent) (v : GameState × List EngineEvent). some (
      record (v.0) { current_bet = rules.big_blind; min_raise_increment = rules.big_blind },
      es ++ v.1,
    ) in
    let both = λ (x y : ℕ).
      post s x rules.small_blind
      >>= (λ (u : GameState × List EngineEvent). post u.0 y rules.big_blind >>= ends u.1) in
    ap (λ x. both x (bb_seat s)) a
    ∙ ap (both sb) b
    ∙ ap
        (λ m.
          m >>= (λ (u : GameState × List EngineEvent). post u.0 bb rules.big_blind >>= ends u.1))
        run1
    ∙ ap (λ m. m >>= ends es) run2

-- Two players or more have chips: the blinds are posted by two of them.
pub post_blinds-Posted :
    (rules : BettingRules) (hand_id dealer : ℕ) (stacks : List ℕ)
    → let s = init_state rules hand_id stacks dealer in
      let total = sum_of (λ x. x) stacks in
      dealer < length s.players
      → 2 ≤ count_if is_in s.players
      → rules.small_blind ≤ rules.big_blind
      → 0 < rules.big_blind
      → total < u32_mod
      → (t : GameState) × (es : List EngineEvent) × (post_blinds rules s
          ≡ some (
            record t { current_bet = rules.big_blind; min_raise_increment = rules.big_blind },
            es,
          ))
        × Posted rules.big_blind total s t
unfolding init_state
post_blinds-Posted rules hand_id dealer stacks inside two le h fits =
    let s = init_state rules hand_id stacks dealer in
    let ps = s.players in
    let (k, p, g, on) = present is_in ps (omega (arith, two)) in
    let (sb, sb_found, sb_next) = first_after-IsNext is_in ps dealer k p inside g on in
    let (p1, g1, on1) = passing is_in ps sb sb_next.passes in
    let (stack1, new1, le1) = new_player-found stacks sb p1 g1 in
    let (j, q, gj, onj, apart) = another is_in ps sb two in
    let (bb, bb_found, bb_next) =
      first_after-IsNext is_in ps sb j q (get_elem?-lt ps sb g1) gj onj in
    let other = IsNext-other is_in ps sb bb j q (get_elem?-lt ps sb g1) bb_next gj onj apart in
    let (p2, g2, on2) = passing is_in ps bb bb_next.passes in
    let (stack2, new2, le2) = new_player-found stacks bb p2 g2 in
    let (q1, es1, run1, o1) =
      post-Posted rules.big_blind rules.small_blind (sum_of (λ x. x) stacks) sb stack1 s s h le
        (omega (arith, le1)) (start-Posted rules hand_id dealer stacks h fits)
        (g1 ∙ ap (λ x. some x) new1) (sym (ap is_in new1) ∙ on1) in
    let (q2, es2, run2, o2) =
      post-Posted rules.big_blind rules.big_blind (sum_of (λ x. x) stacks) bb stack2 s (put s sb q1)
        h (omega arith) (omega (arith, le2)) o1
        (get_elem?-set_ne ps sb bb q1 (λ e. other (sym e)) ∙ g2 ∙ ap (λ x. some x) new2)
        (sym (ap is_in new2) ∙ on2) in
    let first = sb_seat-found s sb sb_found in
    (
      put (put s sb q1) bb q2,
      es1 ++ es2,
      post_blinds-run rules s (put s sb q1) (put (put s sb q1) bb q2) sb bb es1 es2 first
          (bb_seat-found s sb bb first bb_found) run1 run2,
      o2,
    )
