-- ===== src/Base/Entries.antt =====
-- Entries of lists: where they are found, those of an extended list, and predicates of all of them.
use Prim.Native.Nat.{ℕ, zero, suc, ◌+◌}
use mathlib.Core.Path.{◌≡◌, refl}
use mathlib.Core.Logic.{inl, inr}
use mathlib.Core.Bool.{Bool, true}
use mathlib.Core.List.{List, [], ◌∷◌, ◌++◌, map}
use mathlib.Core.Option.{some}
use native.Mathlib.Omega.{arith}
use vibe_poker.Base.Tests.{Bool-cases}
use vibe_poker.Base.Lists.{length, get_elem?, update, position_from, All}

module _ {ℓ} {A : Type ℓ} where
  -- What `position_from` finds.
  pub position_from-found :
      (n : ℕ) (q : A → Bool) (xs : List A) (i : ℕ)
      → position_from n q xs ≡ some i
      → (k : ℕ) × (x : A) × (i ≡ n + k) × (get_elem? xs k ≡ some x) × (q x ≡ true)
  position_from-found n q [] i h = absurd (ground arith)
  position_from-found n q (x ∷ xs) i h = elim (Bool-cases (q x)) [
    | inl e ↦ (0, x, ground arith, refl, e)
    | inr e ↦
        (let (k, y, eq, at, holds) = position_from-found (n + 1) q xs i (ground arith) in
          (suc k, y, omega (arith, eq), at, holds))
  ]

  pub get_elem?-append :
      (xs ys : List A) (i : ℕ) {x : A} → get_elem? xs i ≡ some x → get_elem? (xs ++ ys) i ≡ some x
  get_elem?-append [] ys i h = absurd (ground arith)
  get_elem?-append (x ∷ xs) ys zero h = h
  get_elem?-append (x ∷ xs) ys (suc i) h = get_elem?-append xs ys i h

  pub get_elem?-append_last :
      (xs : List A) (y : A) → get_elem? (xs ++ (y ∷ [])) (length xs) ≡ some y
  get_elem?-append_last [] y = refl
  get_elem?-append_last (x ∷ xs) y = get_elem?-append_last xs y

  pub All-update {κ} :
      (P : A → Type κ) (f : A → A) (xs : List A) (i : ℕ)
      → ((x : A) → P x → P (f x))
      → All P xs
      → All P (update f xs i)
  All-update P f [] i h a = a
  All-update P f (x ∷ xs) zero h a = (h x a.0, a.1)
  All-update P f (x ∷ xs) (suc i) h a = (a.0, All-update P f xs i h a.1)

  pub All-map {κ} :
      (P : A → Type κ) (f : A → A) (xs : List A)
      → ((x : A) → P x → P (f x))
      → All P xs
      → All P (map f xs)
  All-map P f [] h a = tt
  All-map P f (x ∷ xs) h a = (h x a.0, All-map P f xs h a.1)
