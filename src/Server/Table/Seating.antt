-- ===== src/Server/Table/Seating.antt =====
-- crates/poker-server/src/table.rs: no player holds two seats of a table.
use vibe_poker.Base.{
  ℕ, zero, suc, ◌⊎◌, ◌+◌, ◌≤◌, Bool, true, false, List, [], ◌∷◌, map, Option, none, some, get_elem?,
  set, update, count_if, ◌==◌, if◌then◌else◌, ◌≡◌, refl, ap, arith, Bool-cases, inl, inr,
}
use vibe_poker.Server.Store.{Store}
use vibe_poker.Server.Table.{Seat, holds, any, vacate, force_from, is_superseded}

-- A change of a seat that gives it to nobody else.
abbrev pub IsRelease : (Option Seat → Option Seat) → Type 0
IsRelease f = (p : ℕ) (s : Option Seat) → holds p (f s) ≡ true → holds p s ≡ true

pub vacate-IsRelease : (in_hand : Bool) → IsRelease (vacate in_hand)
vacate-IsRelease true p none h = h
vacate-IsRelease true p (some s) h = h
vacate-IsRelease false p s h = absurd (ground arith)

module _ (f : Option Seat → Option Seat) (released : IsRelease f) where
  one-le :
      (p : ℕ) (s : Option Seat) → (if holds p (f s) then 1 else 0) ≤ (if holds p s then 1 else 0)
  one-le p s = elim (Bool-cases (holds p (f s))) [
    | inl e ↦ rw (e, released p s e) (omega arith)
    | inr e ↦ rw e (omega arith)
  ]

  pub count_if-update :
      (p : ℕ) (seats : List (Option Seat)) (i : ℕ)
      → count_if (holds p) (update f seats i) ≤ count_if (holds p) seats
  count_if-update p [] i = omega arith
  count_if-update p (s ∷ seats) zero = omega (arith, one-le p s)
  count_if-update p (s ∷ seats) (suc i) = omega (arith, count_if-update p seats i)

  pub count_if-map :
      (p : ℕ) (seats : List (Option Seat))
      → count_if (holds p) (map f seats) ≤ count_if (holds p) seats
  count_if-map p [] = omega arith
  count_if-map p (s ∷ seats) = omega (arith, one-le p s, count_if-map p seats)

-- Who does not sit yet, and takes a vacant seat.
pub count_if-absent :
    (p : ℕ) (seats : List (Option Seat))
    → any (holds p) seats ≡ false
    → count_if (holds p) seats ≡ 0
count_if-absent p [] h = refl
count_if-absent p (s ∷ seats) h = ground (arith, count_if-absent p seats)

pub count_if-set :
    (p : ℕ) (seats : List (Option Seat)) (i : ℕ) (s : Seat)
    → get_elem? seats i ≡ some none
    → count_if (holds p) (set seats i (some s))
      ≡ count_if (holds p) seats + (if s.player_id == p then 1 else 0)
count_if-set p [] i s h = absurd (ground arith)
count_if-set p (none ∷ seats) zero s h = omega arith
count_if-set p (some x ∷ seats) zero s h = absurd (ground arith)
count_if-set p (x ∷ seats) (suc i) s h = omega (arith, count_if-set p seats i s h)

-- Leaving by force vacates one seat, or changes nothing.
pub force_from-update :
    (w : Store) (player_id : ℕ) (session : Option ℕ) (in_hand : Bool) (seats : List (Option Seat))
    → ((i : ℕ) × ((force_from w player_id session in_hand seats).0
          ≡ update (vacate in_hand) seats i))
      ⊎ ((force_from w player_id session in_hand seats).0 ≡ seats)
unfolding force_from
force_from-update w p session in_hand [] = inr refl
force_from-update w p session in_hand (none ∷ seats) =
    elim (force_from-update w p session in_hand seats) [
      | inl (i, e) ↦ inl (suc i, ap (◌∷◌ none) e)
      | inr e ↦ inr (ap (◌∷◌ none) e)
    ]
force_from-update w p session in_hand (some s ∷ seats) = elim (Bool-cases (s.player_id == p)) [
  | inl e ↦ elim (Bool-cases (is_superseded w session s)) [
    | inl q ↦ inr (rw (e, q) refl)
    | inr q ↦ inl (0, rw (e, q) refl)
  ]
  | inr e ↦ elim (force_from-update w p session in_hand seats) [
    | inl (i, x) ↦ inl (suc i, rw e (ap (◌∷◌ (some s)) x))
    | inr x ↦ inr (rw e (ap (◌∷◌ (some s)) x))
  ]
]
