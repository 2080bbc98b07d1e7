-- ===== src/Core/Card.antt =====
-- crates/poker-engine/src/core/card.rs: ranks, suits, and the packed card.
pub mod Packing
use Prim.Native.Nat.{bit_and, bit_or}
use vibe_poker.Base.{
  ℕ, ◌*◌, ◌/◌, ◌^◌, Option, none, some, Bool, ltb, if◌then◌else◌, get_elem?, List, [], ◌∷◌,
}

pub data Rank : Type 0 where
  two three four five six seven eight nine ten jack queen king ace : Rank

pub data Suit : Type 0 where
  clubs diamonds hearts spades : Suit

-- `r as u8`
abbrev pub rank_code : Rank → ℕ
rank_code two = 0
rank_code three = 1
rank_code four = 2
rank_code five = 3
rank_code six = 4
rank_code seven = 5
rank_code eight = 6
rank_code nine = 7
rank_code ten = 8
rank_code jack = 9
rank_code queen = 10
rank_code king = 11
rank_code ace = 12

-- `s as u8`
abbrev pub suit_code : Suit → ℕ
suit_code clubs = 0
suit_code diamonds = 1
suit_code hearts = 2
suit_code spades = 3

abbrev pub ranks : List Rank
ranks =
    two ∷ three ∷ four ∷ five ∷ six ∷ seven ∷ eight ∷ nine ∷ ten ∷ jack ∷ queen ∷ king ∷ ace ∷ []

abbrev pub suits : List Suit
suits = clubs ∷ diamonds ∷ hearts ∷ spades ∷ []

-- `struct Card(u8)`: bits 2 to 5 hold the rank, bits 0 and 1 the suit.
pub record Card : Type 0 where
  pub bits : ℕ

-- `(rank as u8) << 2 | (suit as u8)`
unfoldable pub new_card : Rank → Suit → Card
new_card r s = record { bits = bit_or (rank_code r * 4) (suit_code s) }

-- The transmute of `bits >> 2`; `none` is a byte that is no `Rank`, which is undefined behaviour.
unfoldable pub rank : Card → Option Rank
rank c = get_elem? ranks (c.bits / 4)

-- The transmute of `bits & 0b11`.
unfoldable pub suit : Card → Option Suit
suit c = get_elem? suits (bit_and c.bits 3)

abbrev pub index : Card → ℕ
index c = c.bits

-- `1u64 << bits`
unfoldable pub mask : Card → ℕ
mask c = 2 ^ c.bits

-- The values of the packed byte: 52 cards.
abbrev pub deck_size : ℕ
deck_size = 52
