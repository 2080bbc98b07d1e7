-- ===== src/Base/Lists.antt =====
-- Lists measured, indexed and summed by native numbers, under the library's names.
use Prim.Native.Nat.{ℕ, zero, suc, ◌+◌, ◌≤◌, ◌<◌}
use mathlib.Core.Path.{◌≡◌, refl, ap, ◌∙◌}
use mathlib.Core.Logic.{◌≢◌}
use mathlib.Core.Bool.{Bool, true, ◌&&◌}
use mathlib.Core.List.{List, [], ◌∷◌, ◌++◌, map}
use mathlib.Core.Option.{Option, none, some}
use native.Mathlib.Omega.{arith}
use vibe_poker.Base.Tests.{if◌then◌else◌}
use vibe_poker.Base.Words.{add32, add32_fits, u32_mod}

module _ {ℓ} {A : Type ℓ} where
  abbrev pub length : List A → ℕ
  length [] = 0
  length (x ∷ xs) = suc (length xs)

  abbrev pub get_elem? : List A → ℕ → Option A
  get_elem? [] i = none
  get_elem? (x ∷ xs) zero = some x
  get_elem? (x ∷ xs) (suc i) = get_elem? xs i

  -- A write out of bounds changes nothing; the model reads the entry first, and panics there.
  abbrev pub set : List A → ℕ → A → List A
  set [] i v = []
  set (x ∷ xs) zero v = v ∷ xs
  set (x ∷ xs) (suc i) v = x ∷ set xs i v

  -- The entry at an index, changed in place.
  abbrev pub update : (A → A) → List A → ℕ → List A
  update f [] i = []
  update f (x ∷ xs) zero = f x ∷ xs
  update f (x ∷ xs) (suc i) = x ∷ update f xs i

  abbrev pub replicate : ℕ → A → List A
  replicate zero a = []
  replicate (suc n) a = a ∷ replicate n a

  -- The sum of a field over a list.
  abbrev pub sum_of : (A → ℕ) → List A → ℕ
  sum_of f [] = 0
  sum_of f (x ∷ xs) = f x + sum_of f xs

  abbrev pub count_if : (A → Bool) → List A → ℕ
  count_if p [] = 0
  count_if p (x ∷ xs) = (if p x then 1 else 0) + count_if p xs

  abbrev pub all_of : (A → Bool) → List A → Bool
  all_of p [] = true
  all_of p (x ∷ xs) = p x && all_of p xs

  -- `iter().position(..)`, from the index `i` of the list's head on.
  abbrev pub position_from : ℕ → (A → Bool) → List A → Option ℕ
  position_from i p [] = none
  position_from i p (x ∷ xs) = if p x then some i else position_from (i + 1) p xs

  abbrev pub All {κ} : (A → Type κ) → List A → Type κ
  All P [] = Unit
  All P (x ∷ xs) = P x × All P xs

module _ {ℓ} {A : Type ℓ} where
  pub length-append : (xs ys : List A) → length (xs ++ ys) ≡ length xs + length ys
  length-append [] ys = omega arith
  length-append (x ∷ xs) ys = omega (arith, length-append xs ys)

  pub length-set : (xs : List A) (i : ℕ) (v : A) → length (set xs i v) ≡ length xs
  length-set [] i v = refl
  length-set (x ∷ xs) zero v = refl
  length-set (x ∷ xs) (suc i) v = ap suc (length-set xs i v)

  pub length-map {κ} : {B : Type κ} (f : A → B) (xs : List A) → length (map f xs) ≡ length xs
  length-map f [] = refl
  length-map f (x ∷ xs) = ap suc (length-map f xs)

  pub length-replicate : (n : ℕ) (a : A) → length (replicate n a) ≡ n
  length-replicate zero a = refl
  length-replicate (suc n) a = ap suc (length-replicate n a)

  pub get_elem?-lt : (xs : List A) (i : ℕ) {x : A} → get_elem? xs i ≡ some x → i < length xs
  get_elem?-lt [] i h = absurd (ground arith)
  get_elem?-lt (x ∷ xs) zero h = omega arith
  get_elem?-lt (x ∷ xs) (suc i) h = omega (arith, get_elem?-lt xs i h)

  pub get_elem?_total : (xs : List A) (i : ℕ) → i < length xs → (x : A) × (get_elem? xs i ≡ some x)
  get_elem?_total [] i h = elim h [ ]
  get_elem?_total (x ∷ xs) zero h = (x, refl)
  get_elem?_total (x ∷ xs) (suc i) h = get_elem?_total xs i (omega arith)

  pub get_elem?-set_self :
      (xs : List A) (i : ℕ) (v : A) → i < length xs → get_elem? (set xs i v) i ≡ some v
  get_elem?-set_self [] i v h = elim h [ ]
  get_elem?-set_self (x ∷ xs) zero v h = refl
  get_elem?-set_self (x ∷ xs) (suc i) v h = get_elem?-set_self xs i v (omega arith)

  pub get_elem?-set_ne :
      (xs : List A) (i j : ℕ) (v : A) → i ≢ j → get_elem? (set xs i v) j ≡ get_elem? xs j
  get_elem?-set_ne [] i j v h = refl
  get_elem?-set_ne (x ∷ xs) zero zero v h = absurd (h refl)
  get_elem?-set_ne (x ∷ xs) zero (suc j) v h = refl
  get_elem?-set_ne (x ∷ xs) (suc i) zero v h = refl
  get_elem?-set_ne (x ∷ xs) (suc i) (suc j) v h = get_elem?-set_ne xs i j v (λ e. h (ap suc e))

  pub length-update : (f : A → A) (xs : List A) (i : ℕ) → length (update f xs i) ≡ length xs
  length-update f [] i = refl
  length-update f (x ∷ xs) zero = refl
  length-update f (x ∷ xs) (suc i) = ap suc (length-update f xs i)

  pub get_elem?-update_self :
      (f : A → A) (xs : List A) (i : ℕ) {x : A}
      → get_elem? xs i ≡ some x
      → get_elem? (update f xs i) i ≡ some (f x)
  get_elem?-update_self f [] i h = absurd (ground arith)
  get_elem?-update_self f (x ∷ xs) zero h = ground arith
  get_elem?-update_self f (x ∷ xs) (suc i) h = get_elem?-update_self f xs i h

  pub get_elem?-update_ne :
      (f : A → A) (xs : List A) (i j : ℕ) → i ≢ j → get_elem? (update f xs i) j ≡ get_elem? xs j
  get_elem?-update_ne f [] i j h = refl
  get_elem?-update_ne f (x ∷ xs) zero zero h = absurd (h refl)
  get_elem?-update_ne f (x ∷ xs) zero (suc j) h = refl
  get_elem?-update_ne f (x ∷ xs) (suc i) zero h = refl
  get_elem?-update_ne f (x ∷ xs) (suc i) (suc j) h =
      get_elem?-update_ne f xs i j (λ e. h (ap suc e))

  -- A predicate of an entry that the change at its index keeps.
  pub get_elem?-update_keeps {κ} :
      (P : Option A → Type κ) (f : A → A) (xs : List A) (i j : ℕ)
      → (i ≡ j → (x : A) → P (some x) → P (some (f x)))
      → P (get_elem? xs j)
      → P (get_elem? (update f xs i) j)
  get_elem?-update_keeps P f [] i j k h = h
  get_elem?-update_keeps P f (x ∷ xs) zero zero k h = k refl x h
  get_elem?-update_keeps P f (x ∷ xs) zero (suc j) k h = h
  get_elem?-update_keeps P f (x ∷ xs) (suc i) zero k h = h
  get_elem?-update_keeps P f (x ∷ xs) (suc i) (suc j) k h =
      get_elem?-update_keeps P f xs i j (λ e. k (ap suc e)) h

  -- What is read off an entry, if no change of an entry changes it.
  pub get_elem?-update_same {κ} :
      {B : Type κ} (r : Option A → B) (f : A → A) (xs : List A) (i j : ℕ)
      → ((x : A) → r (some (f x)) ≡ r (some x))
      → r (get_elem? (update f xs i) j) ≡ r (get_elem? xs j)
  get_elem?-update_same r f xs i j k =
      get_elem?-update_keeps (λ o. r o ≡ r (get_elem? xs j)) f xs i j (λ e x h. k x ∙ h) refl

  pub all_of-append :
      (p : A → Bool) (xs ys : List A)
      → all_of p xs ≡ true
      → all_of p ys ≡ true
      → all_of p (xs ++ ys) ≡ true
  all_of-append p [] ys h k = k
  all_of-append p (x ∷ xs) ys h k = ground (arith, all_of-append p xs ys)

  pub set-get_elem? : (xs : List A) (i : ℕ) (x : A) → get_elem? xs i ≡ some x → set xs i x ≡ xs
  set-get_elem? [] i x h = refl
  set-get_elem? (z ∷ xs) zero x h = ground arith
  set-get_elem? (z ∷ xs) (suc i) x h = ap (◌∷◌ z) (set-get_elem? xs i x h)

  -- A write trades the old entry's share of the sum for the new one's.
  pub sum_of-set :
      (f : A → ℕ) (xs : List A) (i : ℕ) (x y : A)
      → get_elem? xs i ≡ some x
      → sum_of f (set xs i y) + f x ≡ sum_of f xs + f y
  sum_of-set f [] i x y h = absurd (ground arith)
  sum_of-set f (z ∷ xs) zero x y h = ground arith
  sum_of-set f (z ∷ xs) (suc i) x y h = omega (arith, sum_of-set f xs i x y h)

  pub le-sum_of :
      (f : A → ℕ) (xs : List A) (i : ℕ) (x : A) → get_elem? xs i ≡ some x → f x ≤ sum_of f xs
  le-sum_of f [] i x h = absurd (ground arith)
  le-sum_of f (z ∷ xs) zero x h = ground arith
  le-sum_of f (z ∷ xs) (suc i) x h = omega (arith, le-sum_of f xs i x h)

  pub sum_of-append : (f : A → ℕ) (xs ys : List A) → sum_of f (xs ++ ys) ≡ sum_of f xs + sum_of f ys
  sum_of-append f [] ys = omega arith
  sum_of-append f (x ∷ xs) ys = omega (arith, sum_of-append f xs ys)

  pub All-get {κ} :
      (P : A → Type κ) (xs : List A) (i : ℕ) (x : A) → All P xs → get_elem? xs i ≡ some x → P x
  All-get P [] i x a h = absurd (ground arith)
  All-get P (z ∷ xs) zero x a h = ground arith
  All-get P (z ∷ xs) (suc i) x a h = All-get P xs i x a.1 h

  pub All-set {κ} :
      (P : A → Type κ) (xs : List A) (i : ℕ) (y : A) → All P xs → P y → All P (set xs i y)
  All-set P [] i y a h = a
  All-set P (z ∷ xs) zero y a h = (h, a.1)
  All-set P (z ∷ xs) (suc i) y a h = (a.0, All-set P xs i y a.1 h)

pub get_elem?-replicate {ℓ} :
    {A : Type ℓ} (n i : ℕ) (a : A) → i < n → get_elem? (replicate n a) i ≡ some a
get_elem?-replicate zero i a h = absurd (omega arith)
get_elem?-replicate (suc n) zero a h = refl
get_elem?-replicate (suc n) (suc i) a h = get_elem?-replicate n i a (omega arith)

module _ {ℓ κ} {A : Type ℓ} {B : Type κ} (g : A → B) where
  pub sum_of-map : (f : B → ℕ) (xs : List A) → sum_of f (map g xs) ≡ sum_of (λ x. f (g x)) xs
  sum_of-map f [] = refl
  sum_of-map f (x ∷ xs) = ap (◌+◌ (f (g x))) (sum_of-map f xs)

  pub get_elem?-map :
      (xs : List A) (i : ℕ) {x : A} → get_elem? xs i ≡ some x → get_elem? (map g xs) i ≡ some (g x)
  get_elem?-map [] i h = absurd (ground arith)
  get_elem?-map (x ∷ xs) zero h = ground arith
  get_elem?-map (x ∷ xs) (suc i) h = get_elem?-map xs i h

-- Over a small range, a Boolean property is checked by evaluation.
unfoldable pub all_below : ℕ → (ℕ → Bool) → Bool
all_below zero p = true
all_below (suc n) p = p n && all_below n p

pub all_below-get : (n : ℕ) (p : ℕ → Bool) (x : ℕ) → all_below n p ≡ true → x < n → p x ≡ true
unfolding all_below
all_below-get zero p x h lt = absurd (omega arith)
all_below-get (suc n) p x h lt = ground (arith, all_below-get n p x)

-- `iter().map(f).sum::<u32>()`: a left fold that wraps.
module _ {ℓ} {A : Type ℓ} where
  unfoldable pub sum32_from : (A → ℕ) → ℕ → List A → ℕ
  sum32_from f acc [] = acc
  sum32_from f acc (x ∷ xs) = sum32_from f (add32 acc (f x)) xs

  unfoldable pub sum32 : (A → ℕ) → List A → ℕ
  unfolding sum32_from
  sum32 f xs = sum32_from f 0 xs

  sum32_from_fits :
      (f : A → ℕ) (acc : ℕ) (xs : List A)
      → acc + sum_of f xs < u32_mod
      → sum32_from f acc xs ≡ acc + sum_of f xs
  unfolding sum32_from
  sum32_from_fits f acc [] h = omega arith
  sum32_from_fits f acc (x ∷ xs) h =
      rw (add32_fits acc (f x) (omega arith))
        (omega (arith, sum32_from_fits f (acc + f x) xs (omega arith)))

  pub sum32_fits : (f : A → ℕ) (xs : List A) → sum_of f xs < u32_mod → sum32 f xs ≡ sum_of f xs
  unfolding sum32
  sum32_fits f xs h = omega (arith, sum32_from_fits f 0 xs (omega arith))
