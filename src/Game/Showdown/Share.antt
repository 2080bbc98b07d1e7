-- ===== src/Game/Showdown/Share.antt =====
-- Splitting one pot of engine.rs among its winners.
use native.Mathlib.Nat.{mod-add-mod, mod-eq_of_lt, mod-lt}
use mathlib.Core.Bool.{false≢true}
use vibe_poker.Base.{
  ℕ, zero, suc, ◌+◌, ◌-◌, ◌*◌, ◌/◌, ◌%◌, ◌≤◌, ◌<◌, ◌≡◌, refl, sym, ◌∙◌, ◌⊎◌, inl, inr, true, false,
  List, [], ◌∷◌, Option, some, ◌>>=◌, set, length, arith, All, sum_of, sum_of-set, length-set,
  get_elem?_total, ltb, Bool-cases,
}
use vibe_poker.Game.Showdown.{
  add_at, pay_shares, contains, left_of_dealer, pay_remainder, split_pot,
}

abbrev pub sum : List ℕ → ℕ
sum = sum_of (λ x. x)

-- Payouts that went up by `amount` in all.
pub record Paid (deltas : List ℕ) (amount : ℕ) (r : Option (List ℕ)) : Type 0 where
  pub result : List ℕ
  pub returned : r ≡ some result
  pub length_kept : length result ≡ length deltas
  pub sum_grows : sum result ≡ sum deltas + amount

abbrev pub InRange : List ℕ → List ℕ → Type 0
InRange deltas = All (λ w. w < length deltas)

pub add_at-Paid :
    (deltas : List ℕ) (i x : ℕ) → i < length deltas → Paid deltas x (add_at deltas i x)
unfolding add_at
add_at-Paid deltas i x h =
    let (d, e) = get_elem?_total deltas i h in
    record {
      result = set deltas i (d + x);
      returned = rw e refl;
      length_kept = length-set deltas i (d + x);
      sum_grows = omega (arith, sum_of-set (λ y. y) deltas i d (d + x) e);
    }

pub InRange-length : (ws xs ys : List ℕ) → length ys ≡ length xs → InRange xs ws → InRange ys ws
InRange-length [] xs ys e h = tt
InRange-length (w ∷ ws) xs ys e h = (omega arith, InRange-length ws xs ys e h.1)

pub InRange-of :
    (deltas : List ℕ) (n : ℕ) (ws : List ℕ)
    → n ≡ length deltas
    → All (λ w. w < n) ws
    → InRange deltas ws
InRange-of deltas n [] e a = tt
InRange-of deltas n (w ∷ ws) e a = (omega arith, InRange-of deltas n ws e a.1)

pub Paid-bind :
    (deltas : List ℕ) (x y : ℕ) (m : Option (List ℕ)) (f : List ℕ → Option (List ℕ))
    → Paid deltas x m
    → ((ds : List ℕ) → length ds ≡ length deltas → Paid ds y (f ds))
    → Paid deltas (x + y) (m >>= f)
Paid-bind deltas x y m f h k =
    let next = k h.result h.length_kept in
    record {
      result = next.result;
      returned = rw h.returned next.returned;
      length_kept = next.length_kept ∙ h.length_kept;
      sum_grows = omega (arith, next.sum_grows, h.sum_grows);
    }

Paid-amount :
    (deltas : List ℕ) (x y : ℕ) (m : Option (List ℕ)) → x ≡ y → Paid deltas x m → Paid deltas y m
Paid-amount deltas x y m e h = rw (← e) h

pay_shares-Paid :
    (share : ℕ) (ws deltas : List ℕ)
    → InRange deltas ws
    → Paid deltas (share * length ws) (pay_shares share ws deltas)
unfolding pay_shares
pay_shares-Paid share [] deltas h = record {
  result = deltas;
  returned = refl;
  length_kept = refl;
  sum_grows = omega arith;
}
pay_shares-Paid share (w ∷ ws) deltas h =
    Paid-amount deltas (share + share * length ws) (share * suc (length ws)) _ (omega arith) (
      Paid-bind deltas share (share * length ws) (add_at deltas w share) (pay_shares share ws)
        (add_at-Paid deltas w share h.0)
        (λ ds e. pay_shares-Paid share ws ds (InRange-length ws deltas ds e h.1)))

-- The seat that gets the odd chips: the first winner met going round from the dealer's left.
pub record FirstLeft (dealer n : ℕ) (ws : List ℕ) (from seat : ℕ) : Type 0 where
  pub steps : ℕ
  pub at_seat : seat ≡ (dealer + 1 + steps) % n
  pub won : contains ws seat ≡ true
  pub skipped : (j : ℕ) → from ≤ j → j < steps → contains ws ((dealer + 1 + j) % n) ≡ false

le-cases : (i j : ℕ) → i ≤ j → (i ≡ j) ⊎ (i + 1 ≤ j)
le-cases i j h = omega arith

FirstLeft-earlier :
    (dealer n : ℕ) (ws : List ℕ) (i seat : ℕ)
    → contains ws ((dealer + 1 + i) % n) ≡ false
    → FirstLeft dealer n ws (i + 1) seat
    → FirstLeft dealer n ws i seat
FirstLeft-earlier dealer n ws i seat e l = record {
  steps = l.steps;
  at_seat = l.at_seat;
  won = l.won;
  skipped =
      λ k p q. elim (le-cases i k p) [ inl same ↦ rw same at e | inr less ↦ l.skipped k less q ];
}

left_of_dealer-first :
    (dealer n : ℕ) (ws : List ℕ) (rounds i j : ℕ)
    → i ≤ j
    → j < i + rounds
    → contains ws ((dealer + 1 + j) % n) ≡ true
    → (seat : ℕ) × (left_of_dealer dealer n ws rounds i ≡ some seat) × FirstLeft dealer n ws i seat
unfolding left_of_dealer
left_of_dealer-first dealer n ws zero i j lo hi h = absurd (omega arith)
left_of_dealer-first dealer n ws (suc rounds) i j lo hi h =
    elim (Bool-cases (contains ws ((dealer + 1 + i) % n))) [
      | inl e ↦ (
        (dealer + 1 + i) % n,
        rw e refl,
        record { steps = i; at_seat = refl; won = e; skipped = λ k p q. absurd (omega arith) },
      )
      | inr e ↦
          let (seat, found, l) =
            left_of_dealer-first dealer n ws rounds (i + 1) j (later e) (omega arith) h in
          (seat, rw e found, FirstLeft-earlier dealer n ws i seat e l)
    ]
  where
    later : contains ws ((dealer + 1 + i) % n) ≡ false → i + 1 ≤ j
    later e = elim (le-cases i j lo) [
      | inl same ↦ absurd (false≢true (sym e ∙ rw (← same) at h))
      | inr less ↦ less
    ]

mod_wrap : (x n : ℕ) → x < n → (x + n) % n ≡ x
mod_wrap x n h = grind arith

-- Going round the table from any seat meets every seat.
meets : (a n w : ℕ) → w < n → (j : ℕ) × (j < n) × ((a + j) % n ≡ w)
meets a n w h = elim (Bool-cases (ltb w (a % n))) [
  | inl e ↦ (w + n - a % n, ground arith, from (w + n - a % n) (wrap e))
  | inr e ↦ (w - a % n, ground arith, from (w - a % n) (straight e))
]
  where
    below : a % n < n
    below = mod-lt a (omega arith)

    from : (j : ℕ) → (a % n + j) % n ≡ w → (a + j) % n ≡ w
    from j e = sym (mod-add-mod a n j) ∙ e

    wrap : ltb w (a % n) ≡ true → (a % n + (w + n - a % n)) % n ≡ w
    wrap e = let s : a % n + (w + n - a % n) ≡ w + n = omega (arith, below) in rw s (mod_wrap w n h)

    straight : ltb w (a % n) ≡ false → (a % n + (w - a % n)) % n ≡ w
    straight e = let s : a % n + (w - a % n) ≡ w = ground arith in rw s (mod-eq_of_lt h)

contains-head : (w : ℕ) (ws : List ℕ) → contains (w ∷ ws) w ≡ true
contains-head w ws = ground arith

whole : (a k : ℕ) → a / k * k + a % k ≡ a
whole a k = grind arith

-- A scan from the left of the dealer finds the first winner.
pub left_of_dealer_total :
    (dealer n w : ℕ) (ws : List ℕ)
    → w < n
    → (seat : ℕ) × (left_of_dealer dealer n (w ∷ ws) n 0 ≡ some seat)
      × (seat < n)
      × FirstLeft dealer n (w ∷ ws) 0 seat
left_of_dealer_total dealer n w ws h =
    let (j, below, at) = meets (dealer + 1) n w h in
    let (seat, found, l) =
      left_of_dealer-first dealer n (w ∷ ws) n 0 j (omega arith) (omega arith)
        (rw at (contains-head w ws)) in
    (seat, found, rw l.at_seat (mod-lt (dealer + 1 + l.steps) (omega arith)), l)

pay_remainder-Paid :
    (dealer n remainder w : ℕ) (ws deltas : List ℕ)
    → n ≡ length deltas
    → w < n
    → Paid deltas remainder (pay_remainder dealer n (w ∷ ws) remainder deltas)
unfolding pay_remainder
pay_remainder-Paid dealer n remainder w ws deltas e h =
    let (seat, found, below, _) = left_of_dealer_total dealer n w ws h in
    elim (Bool-cases (ltb 0 remainder)) [
      | inl some_left ↦ rw (some_left, found) (add_at-Paid deltas seat remainder (omega arith))
      | inr none_left ↦ rw none_left (record {
        result = deltas;
        returned = refl;
        length_kept = refl;
        sum_grows = ground arith;
      })
    ]

-- A pot is paid out in full.
pub split_pot-Paid :
    (dealer n amount w : ℕ) (ws deltas : List ℕ)
    → n ≡ length deltas
    → InRange deltas (w ∷ ws)
    → Paid deltas amount (split_pot dealer n amount (w ∷ ws) deltas)
unfolding split_pot
split_pot-Paid dealer n amount w ws deltas e h =
    let k = length (w ∷ ws) in
    Paid-amount deltas (amount / k * k + amount % k) amount _ (whole amount k) (
      Paid-bind deltas (amount / k * k) (amount % k) (pay_shares (amount / k) (w ∷ ws) deltas)
        (pay_remainder dealer n (w ∷ ws) (amount % k))
        (pay_shares-Paid (amount / k) (w ∷ ws) deltas h)
        (λ ds same.
          pay_remainder-Paid dealer n (amount % k) w ws ds (e ∙ sym same) (omega (arith, h.0))))
