-- ===== src/Prelude/All.antt =====
-- A Boolean test of every element of a list.
use mathlib.Core.Path.{◌≡◌, refl}
use mathlib.Core.Bool.{Bool, true, ◌&&◌}
use mathlib.Core.List.{List, [], ◌∷◌, ◌++◌}
use native.Mathlib.Omega.{arith}

module _ {ℓ} {A : Type ℓ} where
  abbrev pub all : (A → Bool) → List A → Bool
  all p [] = true
  all p (x ∷ xs) = p x && all p xs

module _ {A : Type 0} where
  pub all-append : (p : A → Bool) (xs ys : List A) → all p (xs ++ ys) ≡ (all p xs && all p ys)
  all-append p [] ys = refl
  all-append p (x ∷ xs) ys = ground (arith, all-append p xs ys)

  pub all_mono :
      (p q : A → Bool)
      → ((x : A) → p x ≡ true → q x ≡ true)
      → (xs : List A) → all p xs ≡ true
      → all q xs ≡ true
  all_mono p q h [] a = refl
  all_mono p q h (x ∷ xs) a = ground (arith, h x, all_mono p q h xs)

  pub all_both :
      (p q r : A → Bool)
      → ((x : A) → p x ≡ true → q x ≡ true → r x ≡ true)
      → (xs : List A) → all p xs ≡ true
      → all q xs ≡ true
      → all r xs ≡ true
  all_both p q r h [] a b = refl
  all_both p q r h (x ∷ xs) a b = ground (arith, h x, all_both p q r h xs)
