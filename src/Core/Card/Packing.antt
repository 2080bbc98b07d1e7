-- ===== src/Core/Card/Packing.antt =====
-- The packed card of card.rs loses nothing: the 52 bytes below 52 are exactly the cards.
use vibe_poker.Base.{
  ℕ, ◌+◌, ◌*◌, ◌<◌, ◌≡◌, refl, Bool, true, false, Option, none, ◌>>=◌, all_below, all_below-get,
  some, arith, ◌==◌,
}
use vibe_poker.Core.Card.{
  Rank, Suit, Card, two, clubs, diamonds, hearts, spades, rank_code, suit_code, new_card, rank,
  suit, index,
}

-- On the codes of a card, `|` is addition.
pub bits-new_card : (r : Rank) (s : Suit) → (new_card r s).bits ≡ rank_code r * 4 + suit_code s
unfolding new_card
bits-new_card two clubs = refl
bits-new_card _ clubs = refl
bits-new_card two diamonds = refl
bits-new_card _ diamonds = refl
bits-new_card two hearts = refl
bits-new_card _ hearts = refl
bits-new_card two spades = refl
bits-new_card _ spades = refl

-- For every rank and suit, the packed byte is below 52, and unpacking it by `rank` and `suit`
-- gives back that rank and that suit.
pub unpack-new_card :
    (r : Rank) (s : Suit)
    → (rank (new_card r s) ≡ some r) × (suit (new_card r s) ≡ some s) × (index (new_card r s) < 52)
unfolding rank suit new_card
unpack-new_card two clubs = (refl, refl, omega arith)
unpack-new_card _ clubs = (refl, refl, omega arith)
unpack-new_card two diamonds = (refl, refl, omega arith)
unpack-new_card _ diamonds = (refl, refl, omega arith)
unpack-new_card two hearts = (refl, refl, omega arith)
unpack-new_card _ hearts = (refl, refl, omega arith)
unpack-new_card two spades = (refl, refl, omega arith)
unpack-new_card _ spades = (refl, refl, omega arith)

-- Unpack a byte and pack it again.
abbrev repack : Card → Option Card
repack c = do r ← rank c; s ← suit c; some (new_card r s)

abbrev is_repacked : ℕ → Bool
is_repacked n = elim (repack (record { bits = n })) [ none ↦ false | some d ↦ d.bits == n ]

repack_table : all_below 52 is_repacked ≡ true
unfolding all_below rank suit new_card
repack_table = refl

-- Each byte below 52 unpacks to a rank and a suit, and packing those gives the byte again.
pub new_card-unpack :
    (c : Card) → c.bits < 52 → (rank c >>= λ r. suit c >>= λ s. some (new_card r s)) ≡ some c
new_card-unpack c h = ground (arith, all_below-get 52 is_repacked c.bits repack_table h)
