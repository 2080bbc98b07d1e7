-- ===== src/Tests/Cards.antt =====
-- Cards, classes and the deck at concrete inputs.
use mathlib.Core.List.{Perm}
use vibe_poker.Base.{ℕ, ◌<◌, ◌≡◌, refl, some, ◌>>=◌, get_elem?, arith}
use vibe_poker.Core.Card.{
  Suit, Card, two, ace, king, clubs, diamonds, hearts, spades, new_card, rank, suit, index,
  deck_size,
}
use vibe_poker.Core.Card.Packing.{unpack-new_card, new_card-unpack}
use vibe_poker.Core.Preflop.{PreflopClass, suited, from_hole, class_index, IsCanonical, layout}
use vibe_poker.Core.Preflop.Index.{layout-class_index}
use vibe_poker.Core.Preflop.Canonical.{from_hole-IsCanonical, from_hole_suits}
use vibe_poker.Core.Deck.{Deck, Generator, cards_from, new_deck}
use vibe_poker.Core.Deck.Shuffle.{new_deck-perm}

unpack-new_card_example :
    (rank (new_card ace spades) ≡ some ace)
    × (suit (new_card ace spades) ≡ some spades)
    × (index (new_card ace spades) < 52)
unpack-new_card_example = unpack-new_card ace spades

abbrev last_card : Card
last_card = record { bits = 51 }

new_card-unpack_example :
    (rank last_card >>= λ r. suit last_card >>= λ s. some (new_card r s)) ≡ some last_card
new_card-unpack_example = new_card-unpack last_card (omega arith)

layout-class_index_example :
    get_elem? layout (class_index (suited ace king)) ≡ some (suited ace king)
layout-class_index_example = layout-class_index (suited ace king) (omega arith)

ace_king_suited : class_index (suited ace king) ≡ 13
unfolding class_index
ace_king_suited = refl

from_hole-IsCanonical_example :
    (k : PreflopClass) × (from_hole (new_card two clubs) (new_card ace hearts) ≡ some k)
    × (from_hole (new_card ace hearts) (new_card two clubs) ≡ some k)
    × IsCanonical k
from_hole-IsCanonical_example = from_hole-IsCanonical two clubs ace hearts

abbrev swap_reds : Suit → Suit
swap_reds clubs = clubs
swap_reds diamonds = hearts
swap_reds hearts = diamonds
swap_reds spades = spades

swap_reds-injective : (s t : Suit) → swap_reds s ≡ swap_reds t → s ≡ t
swap_reds-injective s t e = ground arith

from_hole_suits_example :
    from_hole (new_card ace (swap_reds hearts)) (new_card king (swap_reds hearts))
    ≡ from_hole (new_card ace hearts) (new_card king hearts)
from_hole_suits_example = from_hole_suits swap_reds swap_reds-injective ace hearts king hearts

-- A generator that always picks the lowest index.
abbrev pub lowest : Generator
lowest = record {
  Rng = ℕ;
  seed_from_u64 = λ s. s;
  gen_range = λ g i. (0, g);
  in_range = λ g i. omega arith;
}

new_deck-perm_example :
    (d : Deck) × (new_deck lowest 42 ≡ some d)
    × Perm d.cards (cards_from 0 deck_size)
    × (d.cursor ≡ 0)
    × (d.seed ≡ 42)
new_deck-perm_example = new_deck-perm lowest 42
