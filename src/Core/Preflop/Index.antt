-- ===== src/Core/Preflop/Index.antt =====
-- The indices of preflop.rs number the classes as its documentation lays them out.
use vibe_poker.Base.{
  ℕ, ◌<◌, ◌≡◌, refl, some, none, arith, get_elem?, length, ap, Option, Bool, true, false, ltb,
  ltb→lt, ◌==◌, ==_iff, ◌&&◌, all_below, all_below-get, get_elem?-lt,
}
use vibe_poker.Core.Card.{
  Rank, two, three, four, five, six, seven, eight, nine, ten, jack, queen, king, ace, rank_code,
  ranks,
}
use vibe_poker.Core.Preflop.{
  PreflopClass, pair, suited, offsuit, class_index, IsCanonical, layout, count,
}

pub rank_at : (r : Rank) → get_elem? ranks (rank_code r) ≡ some r
rank_at two = refl
rank_at _ = refl

-- Different ranks have different codes.
pub rank_code-injective : (r q : Rank) → rank_code r ≡ rank_code q → r ≡ q
rank_code-injective r q e = cc (rank_at r, rank_at q, ap (get_elem? ranks) e)

layout_pair : (r : Rank) → get_elem? layout (class_index (pair r)) ≡ some (pair r)
unfolding layout class_index
layout_pair two = refl
layout_pair _ = refl

abbrev AtIndex : PreflopClass → Type 0
AtIndex k = get_elem? layout (class_index k) ≡ some k

-- One row for each high rank.
layout_non_pair :
    (h l : Rank) → rank_code l < rank_code h → AtIndex (suited h l) × AtIndex (offsuit h l)
unfolding layout class_index
layout_non_pair two two p = ground arith
layout_non_pair two _ p = ground arith
layout_non_pair three two p = ground arith
layout_non_pair three _ p = ground arith
layout_non_pair four two p = ground arith
layout_non_pair four _ p = ground arith
layout_non_pair five two p = ground arith
layout_non_pair five _ p = ground arith
layout_non_pair six two p = ground arith
layout_non_pair six _ p = ground arith
layout_non_pair seven two p = ground arith
layout_non_pair seven _ p = ground arith
layout_non_pair eight two p = ground arith
layout_non_pair eight _ p = ground arith
layout_non_pair nine two p = ground arith
layout_non_pair nine _ p = ground arith
layout_non_pair ten two p = ground arith
layout_non_pair ten _ p = ground arith
layout_non_pair jack two p = ground arith
layout_non_pair jack _ p = ground arith
layout_non_pair queen two p = ground arith
layout_non_pair queen _ p = ground arith
layout_non_pair king two p = ground arith
layout_non_pair king _ p = ground arith
layout_non_pair ace two p = ground arith
layout_non_pair ace _ p = ground arith

-- Every canonical class stands in the documented layout (pairs from aces down, then the suited and
-- then the offsuit classes in descending order of the ranks) exactly at its index.
pub layout-class_index :
    (k : PreflopClass) → IsCanonical k → get_elem? layout (class_index k) ≡ some k
layout-class_index (pair r) c = layout_pair r
layout-class_index (suited h l) c = (layout_non_pair h l c).0
layout-class_index (offsuit h l) c = (layout_non_pair h l c).1

length-layout : length layout ≡ count
unfolding layout
length-layout = refl

canonical : PreflopClass → Bool
canonical (pair r) = true
canonical (suited h l) = ltb (rank_code l) (rank_code h)
canonical (offsuit h l) = ltb (rank_code l) (rank_code h)

canonical-IsCanonical : (k : PreflopClass) → canonical k ≡ true → IsCanonical k
unfolding canonical
canonical-IsCanonical (pair r) h = tt
canonical-IsCanonical (suited _ _) h = ltb→lt _ _ h
canonical-IsCanonical (offsuit _ _) h = ltb→lt _ _ h

abbrev numbers : ℕ → Option PreflopClass → Bool
numbers i none = false
numbers i (some k) = canonical k && class_index k == i

numbers_table : all_below 169 (λ i. numbers i (get_elem? layout i)) ≡ true
unfolding all_below layout class_index canonical
numbers_table = refl

numbers_class :
    (i : ℕ) (o : Option PreflopClass)
    → numbers i o ≡ true
    → (k : PreflopClass) × (o ≡ some k) × IsCanonical k × (class_index k ≡ i)
numbers_class i none h = absurd (ground arith)
numbers_class i (some k) h =
    (k, refl, canonical-IsCanonical k (ground arith), (==_iff _ _).0 (ground arith))

-- Each of the numbers below 169 is the index of a canonical class, and of one only: a canonical
-- class with that index is that class. The index of a canonical class is below 169.
pub class_index_bijective :
    ((k : PreflopClass) → IsCanonical k → class_index k < count)
    × ((i : ℕ)
        → i < count
        → (k : PreflopClass) × IsCanonical k
          × (class_index k ≡ i)
          × ((j : PreflopClass) → IsCanonical j → class_index j ≡ i → j ≡ k))
class_index_bijective = (bounded, numbered)
  where
    bounded : (k : PreflopClass) → IsCanonical k → class_index k < count
    bounded k c = rw length-layout at (get_elem?-lt layout (class_index k) (layout-class_index k c))

    numbered :
        (i : ℕ)
        → i < count
        → (k : PreflopClass) × IsCanonical k
          × (class_index k ≡ i)
          × ((j : PreflopClass) → IsCanonical j → class_index j ≡ i → j ≡ k)
    numbered i h =
        let (k, e, c, n) =
          numbers_class i _
            (all_below-get 169 (λ m. numbers m (get_elem? layout m)) i numbers_table h) in
        (k, c, n, λ j d m. cc (layout-class_index j d, e, ap (get_elem? layout) m))
