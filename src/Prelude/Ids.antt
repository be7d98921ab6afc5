-- ===== src/Prelude/Ids.antt =====
-- Lists of numbers that name things: membership as a test, no repetitions, deletion.
use Prim.Native.Nat.{ℕ, ◌+◌}
use mathlib.Core.Path.{◌≡◌, refl}
use mathlib.Core.Bool.{Bool, true, false, not, ◌&&◌, ◌||◌}
use mathlib.Core.List.{List, [], ◌∷◌, ◌++◌}
use native.Mathlib.Omega.{arith}
use chroutine.Prelude.Booleans.{◌==◌, if◌then◌else◌}

abbrev pub contains : ℕ → List ℕ → Bool
contains i [] = false
contains i (x ∷ xs) = if x == i then true else contains i xs

abbrev pub Distinct : List ℕ → Type 0
Distinct [] = Unit
Distinct (x ∷ xs) = (contains x xs ≡ false) × Distinct xs

abbrev pub delete : ℕ → List ℕ → List ℕ
delete i [] = []
delete i (x ∷ xs) = if x == i then xs else x ∷ delete i xs

pub contains-append :
    (i : ℕ) (xs ys : List ℕ) → contains i (xs ++ ys) ≡ (contains i xs || contains i ys)
contains-append i [] ys = refl
contains-append i (x ∷ xs) ys = ground (arith, contains-append i xs ys)

pub Distinct-snoc :
    (x : ℕ) (xs : List ℕ) → Distinct xs → contains x xs ≡ false → Distinct (xs ++ x ∷ [])
Distinct-snoc x [] d h = (refl, tt)
Distinct-snoc x (y ∷ ys) d h =
    (ground (arith, contains-append y ys (x ∷ [])), Distinct-snoc x ys d.1 (ground arith))

pub contains-delete :
    (i x : ℕ) (xs : List ℕ)
    → Distinct xs
    → contains i (delete x xs) ≡ (not (x == i) && contains i xs)
contains-delete i x [] d = ground arith
contains-delete i x (y ∷ ys) d = ground (arith, contains-delete i x ys d.1)

pub delete_absent : (x : ℕ) (xs : List ℕ) → contains x xs ≡ false → delete x xs ≡ xs
delete_absent x [] h = refl
delete_absent x (y ∷ ys) h = ground (arith, delete_absent x ys)

pub Distinct-delete : (x : ℕ) (xs : List ℕ) → Distinct xs → Distinct (delete x xs)
Distinct-delete x [] d = tt
Distinct-delete x (y ∷ ys) d = ground (arith, Distinct-delete x ys d.1, contains-delete y x ys d.1)

-- An element stands nowhere else in a list without repetitions.
pub Distinct-middle :
    (x : ℕ) (xs ys : List ℕ)
    → Distinct (xs ++ x ∷ ys)
    → (contains x xs ≡ false) × (contains x ys ≡ false)
Distinct-middle x [] ys d = (refl, d.0)
Distinct-middle x (y ∷ xs) ys d =
    ground (arith, Distinct-middle x xs ys d.1, contains-append y xs (x ∷ ys))

pub Distinct-drop : (x : ℕ) (xs ys : List ℕ) → Distinct (xs ++ x ∷ ys) → Distinct (xs ++ ys)
Distinct-drop x [] ys d = d.1
Distinct-drop x (y ∷ xs) ys d = (
  ground (arith, contains-append y xs ys, contains-append y xs (x ∷ ys)),
  Distinct-drop x xs ys d.1,
)

abbrev pub delete_all : List ℕ → List ℕ → List ℕ
delete_all [] l = l
delete_all (x ∷ xs) l = delete_all xs (delete x l)

delete_all-cons :
    (ys : List ℕ) (x : ℕ) (l : List ℕ)
    → contains x ys ≡ false
    → delete_all ys (x ∷ l) ≡ x ∷ delete_all ys l
delete_all-cons [] x l h = refl
delete_all-cons (y ∷ ys) x l h = ground (arith, delete_all-cons ys x (delete y l))

delete_all_self : (l : List ℕ) → delete_all l l ≡ []
delete_all_self [] = refl
delete_all_self (x ∷ l) = ground (arith, delete_all_self l)

-- All but `r`, deleted one after the other, leave `r` alone.
pub delete_all-delete :
    (r : ℕ) (l : List ℕ)
    → Distinct l
    → delete_all (delete r l) l ≡ (if contains r l then r ∷ [] else [])
delete_all-delete r [] d = refl
delete_all-delete r (x ∷ l) d =
    ground (arith, delete_all-cons l x l d.0, delete_all_self l, delete_all-delete r l d.1)

-- How often a name stands in a list.
abbrev pub count : ℕ → List ℕ → ℕ
count i [] = 0
count i (x ∷ xs) = (if x == i then 1 else 0) + count i xs

pub count-append : (i : ℕ) (xs ys : List ℕ) → count i (xs ++ ys) ≡ count i xs + count i ys
count-append i [] ys = omega arith
count-append i (x ∷ xs) ys = omega (arith, count-append i xs ys)
