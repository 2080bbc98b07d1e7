-- ===== src/Server/Reach/Hands.antt =====
-- crates/poker-server/src/table.rs: the players whom a hand is dealt, and what each gets to see.
use vibe_poker.Base.{
  ℕ, zero, suc, ◌+◌, ◌≤◌, true, false, List, [], ◌∷◌, ◌++◌, map, Option, none, some, get_elem?,
  all_of, count_if, ltb, ◌==◌, ◌≡◌, ◌∙◌, refl, sym, ap, arith, Bool-cases, inl, inr, All,
}
use vibe_poker.Game.Event.{EngineEvent, HandResult, hand_ended}
use vibe_poker.Server.Store.{Store}
use vibe_poker.Server.Table.{Seat, Table, holds}
use vibe_poker.Server.Table.Owners.{player_of, owner_at, IsLinked}
use vibe_poker.Server.Round.{SnapshotPlayer, playing_from, take_running_snapshot}
use vibe_poker.Server.Sink.{new_sink, on_events}
use vibe_poker.Server.Sink.Privacy.{fair, IsClean, IsSole}
use vibe_poker.Server.Sink.Hands.{shown_by, is_within, hand_privacy}
use vibe_poker.Server.Occupancy.{IsOccupied}
use vibe_poker.Server.Reach.{Reached, Reached-IsOccupied}

-- The links of the seats that play, as the hand's sink gets them.
abbrev pub playing_links : ℕ → ℕ → List (Option Seat) → List ℕ
playing_links big_blind i seats =
    map (λ (p : SnapshotPlayer). p.link) (playing_from big_blind i seats)

playing_links-skip :
    (b i : ℕ) (s : Seat) (seats : List (Option Seat))
    → ltb s.stack b ≡ true
    → playing_links b i (some s ∷ seats) ≡ playing_links b (i + 1) seats
unfolding playing_from
playing_links-skip b i s seats e = rw e refl

playing_links-take :
    (b i : ℕ) (s : Seat) (seats : List (Option Seat))
    → ltb s.stack b ≡ false
    → playing_links b i (some s ∷ seats) ≡ s.link ∷ playing_links b (i + 1) seats
unfolding playing_from
playing_links-take b i s seats e = rw e refl

held :
    (w : Store) (s : Seat) (p l : ℕ)
    → player_of w s.link ≡ some s.player_id
    → s.link ≡ l
    → player_of w l ≡ some p
    → (s.player_id == p) ≡ true
held w s p l a e q =
    let same : some s.player_id ≡ some p = sym a ∙ ap (player_of w) e ∙ q in ground arith

taken-counted :
    (rest : List ℕ) (s : Seat) (seats : List (Option Seat)) (w : Store) (p n l : ℕ)
    → All (IsLinked w) (some s ∷ seats)
    → ((k : ℕ) → get_elem? rest k ≡ some l → player_of w l ≡ some p → 1 ≤ count_if (holds p) seats)
    → get_elem? (s.link ∷ rest) n ≡ some l
    → player_of w l ≡ some p
    → 1 ≤ count_if (holds p) (some s ∷ seats)
taken-counted rest s seats w p zero l a f h q = rw (held w s p l a.0 (ground arith) q) (omega arith)
taken-counted rest s seats w p (suc n) l a f h q = omega (arith, f n h q)

-- A link of a player who plays is that of a seat of the player.
playing-counted :
    (b i : ℕ) (seats : List (Option Seat)) (w : Store) (p n l : ℕ)
    → All (IsLinked w) seats
    → get_elem? (playing_links b i seats) n ≡ some l
    → player_of w l ≡ some p
    → 1 ≤ count_if (holds p) seats
unfolding playing_from
playing-counted b i [] w p n l a h q = absurd (ground arith)
playing-counted b i (none ∷ seats) w p n l a h q =
    omega (arith, playing-counted b (i + 1) seats w p n l a.1 h q)
playing-counted b i (some s ∷ seats) w p n l a h q = elim (Bool-cases (ltb s.stack b)) [
  | inl e ↦
      (let there = ap (λ ls. get_elem? ls n) (sym (playing_links-skip b i s seats e)) ∙ h in
        omega (arith, playing-counted b (i + 1) seats w p n l a.1 there q))
  | inr e ↦
      taken-counted (playing_links b (i + 1) seats) s seats w p n l a
        (λ k. playing-counted b (i + 1) seats w p k l a.1)
        (ap (λ ls. get_elem? ls n) (sym (playing_links-take b i s seats e)) ∙ h) q
]

taken_unique :
    (b i : ℕ) (s : Seat) (seats : List (Option Seat)) (w : Store) (p n j l m : ℕ)
    → All (IsLinked w) (some s ∷ seats)
    → count_if (holds p) (some s ∷ seats) ≤ 1
    → ((x y : ℕ)
        → get_elem? (playing_links b i seats) x ≡ some l
        → get_elem? (playing_links b i seats) y ≡ some m
        → x ≡ y)
    → get_elem? (s.link ∷ playing_links b i seats) n ≡ some l
    → get_elem? (s.link ∷ playing_links b i seats) j ≡ some m
    → player_of w l ≡ some p
    → player_of w m ≡ some p
    → n ≡ j
taken_unique b i s seats w p zero zero l m a c f h k q r = refl
taken_unique b i s seats w p zero (suc j) l m a c f h k q r =
    let first = held w s p l a.0 (ground arith) q in
    let one = playing-counted b i seats w p j m a.1 k r in absurd (ground arith)
taken_unique b i s seats w p (suc n) zero l m a c f h k q r =
    let first = held w s p m a.0 (ground arith) r in
    let one = playing-counted b i seats w p n l a.1 h q in absurd (ground arith)
taken_unique b i s seats w p (suc n) (suc j) l m a c f h k q r = ap suc (f n j h k)

-- Of the links of the players who play, one at most leads to a connection of a given player.
playing_unique :
    (b i : ℕ) (seats : List (Option Seat)) (w : Store) (p n j l m : ℕ)
    → All (IsLinked w) seats
    → count_if (holds p) seats ≤ 1
    → get_elem? (playing_links b i seats) n ≡ some l
    → get_elem? (playing_links b i seats) j ≡ some m
    → player_of w l ≡ some p
    → player_of w m ≡ some p
    → n ≡ j
unfolding playing_from
playing_unique b i [] w p n j l m a c h k q r = absurd (ground arith)
playing_unique b i (none ∷ seats) w p n j l m a c h k q r =
    playing_unique b (i + 1) seats w p n j l m a.1 (omega (arith, c)) h k q r
playing_unique b i (some s ∷ seats) w p n j l m a c h k q r = elim (Bool-cases (ltb s.stack b)) [
  | inl e ↦
      (let skip = sym (playing_links-skip b i s seats e) in
        playing_unique b (i + 1) seats w p n j l m a.1 (omega (arith, c))
          (ap (λ ls. get_elem? ls n) skip ∙ h) (ap (λ ls. get_elem? ls j) skip ∙ k) q r)
  | inr e ↦
      (let take = sym (playing_links-take b i s seats e) in
        taken_unique b (i + 1) s seats w p n j l m a c
          (λ x y g d. playing_unique b (i + 1) seats w p x y l m a.1 (omega (arith, c)) g d q r)
          (ap (λ ls. get_elem? ls n) take ∙ h) (ap (λ ls. get_elem? ls j) take ∙ k) q r)
]

taken-linked :
    (b i : ℕ) (s : Seat) (seats : List (Option Seat)) (w : Store) (j m : ℕ)
    → All (IsLinked w) (some s ∷ seats)
    → ((k : ℕ)
        → get_elem? (playing_links b i seats) k ≡ some m
        → (p : ℕ) × (player_of w m ≡ some p))
    → get_elem? (s.link ∷ playing_links b i seats) j ≡ some m
    → (p : ℕ) × (player_of w m ≡ some p)
taken-linked b i s seats w zero m a f h =
    let there : s.link ≡ m = ground arith in (s.player_id, ap (player_of w) (sym there) ∙ a.0)
taken-linked b i s seats w (suc j) m a f h = f j h

playing-linked :
    (b i : ℕ) (seats : List (Option Seat)) (w : Store) (j m : ℕ)
    → All (IsLinked w) seats
    → get_elem? (playing_links b i seats) j ≡ some m
    → (p : ℕ) × (player_of w m ≡ some p)
unfolding playing_from
playing-linked b i [] w j m a h = absurd (ground arith)
playing-linked b i (none ∷ seats) w j m a h = playing-linked b (i + 1) seats w j m a.1 h
playing-linked b i (some s ∷ seats) w j m a h = elim (Bool-cases (ltb s.stack b)) [
  | inl e ↦
      playing-linked b (i + 1) seats w j m a.1
        (ap (λ ls. get_elem? ls j) (sym (playing_links-skip b i s seats e)) ∙ h)
  | inr e ↦
      taken-linked b (i + 1) s seats w j m a (λ k. playing-linked b (i + 1) seats w k m a.1)
        (ap (λ ls. get_elem? ls j) (sym (playing_links-take b i s seats e)) ∙ h)
]

playing-IsSole :
    (b : ℕ) (seats : List (Option Seat)) (w : Store) (j m : ℕ)
    → IsOccupied seats w
    → get_elem? (playing_links b 0 seats) j ≡ some m
    → IsSole (playing_links b 0 seats) 0 j m w
playing-IsSole b seats w j m x g n l h same =
    let (p, r) = playing-linked b 0 seats w j m x.linked g in
    let unique =
      playing_unique b 0 seats w p n j l m x.linked (x.once p) h g (ap (owner_at w) same ∙ r) r in
    omega (arith, unique)

-- At every table, whatever happened to it since it was made, a hand is dealt to players of whom each
-- sees only what is fair: after the events of the hand and its end, the connection of the seat `j`
-- of the hand has been sent no hole cards but the seat's own and, at the end, those of the seats that
-- did not fold, if five board cards were dealt and two seats or more did not fold; nor does its replay
-- hold others. This is so if it was so before the hand.
pub table_privacy :
    (t : Table) (w : Store) (es : List EngineEvent) (hand_id : ℕ) (r : HandResult) (j m : ℕ)
    → Reached (t, w)
    → all_of is_within es ≡ true
    → let links = map (λ (p : SnapshotPlayer). p.link) (take_running_snapshot t).1.players in
      get_elem? links j ≡ some m
      → IsClean (fair (shown_by links es) j) m w
      → IsClean
          (fair (shown_by links es) j)
          m
          (on_events (es ++ (hand_ended hand_id r ∷ [])) (new_sink t.id links, w)).1
unfolding take_running_snapshot
table_privacy t w es hand_id r j m reached within g c =
    let links = playing_links t.config.big_blind 0 t.seats in
    let sole =
      playing-IsSole t.config.big_blind t.seats w j m (Reached-IsOccupied (t, w) reached) g in
    hand_privacy t.id links es hand_id r j m w within sole c
