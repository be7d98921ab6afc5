-- ===== src/Chutex/Exclusion.antt =====
-- Chroutines that hold the lock of util/chutex.hpp by `chutex_guard_t`, in any interleaving.
use chroutine.Prelude.{ℕ, ◌≡◌, refl, Bool, true, false, ◌==◌, if◌then◌else◌, arith}
use chroutine.Chutex.{compare_exchange, try_lock, lock_turn, unlock}

-- Where a chroutine is: outside of the scope, in the loop of `lock()`, or in the scope.
pub data Place : Type 0 where
  outside spinning inside : Place

pub record World : Type 0 where
  pub flag : Bool
  pub places : ℕ → Place

abbrev pub set_place : ℕ → Place → World → World
set_place i p w = record w { places = λ j. if j == i then p else w.places j }

abbrev is_inside : Place → Bool
is_inside inside = true
is_inside _ = false

abbrev pub free_world : World
free_world = record { flag = false; places = λ i. outside }

-- What a turn of the loop makes of the world.
abbrev pub turn : ℕ → Bool → World → World
turn i spurious w =
    let (ended, flag) = lock_turn spurious w.flag in
    record (set_place i (if ended then inside else spinning) w) { flag = flag }

-- The constructor of a guard begins, its `lock()` turns, and its destructor unlocks.
pub data Step (w : World) : World → Type 0 where
  begins : (i : ℕ) → w.places i ≡ outside → Step w (set_place i spinning w)
  turns : (i : ℕ) (spurious : Bool) → w.places i ≡ spinning → Step w (turn i spurious w)
  ends :
      (i : ℕ)
      → w.places i ≡ inside
      → Step w (record (set_place i outside w) { flag = unlock w.flag })

pub data Reach : World → Type 0 where
  here : Reach free_world
  next : {w v : World} → Reach w → Step w v → Reach v

record IsExclusive (w : World) : Type 0 where
  pub held : (i : ℕ) → is_inside (w.places i) ≡ true → w.flag ≡ true
  pub alone : (i j : ℕ) → is_inside (w.places i) ≡ true → is_inside (w.places j) ≡ true → i ≡ j

Step-IsExclusive : {w v : World} → Step w v → IsExclusive w → IsExclusive v
unfolding lock_turn compare_exchange unlock
Step-IsExclusive {w} (begins i out) v = record {
  held = λ x h. ground (arith, v.held x);
  alone = λ x y h k. ground (arith, v.alone x y);
}
Step-IsExclusive {w} (turns i spurious spin) v = record {
  held = λ x h. ground (arith, v.held x);
  alone = λ x y h k. ground (arith, v.alone x y, v.held x, v.held y);
}
Step-IsExclusive {w} (ends i there) v = record {
  held = λ x h. ground (arith, v.alone x i, v.held x);
  alone = λ x y h k. ground (arith, v.alone x y);
}

Reach-IsExclusive : {w : World} → Reach w → IsExclusive w
Reach-IsExclusive here = record {
  held = λ i h. absurd (ground arith);
  alone = λ i j h k. absurd (ground arith);
}
Reach-IsExclusive (next r st) = Step-IsExclusive st (Reach-IsExclusive r)

-- Whatever the interleaving, and whichever exchanges fail spuriously: two chroutines that are in the
-- guarded scope are one, and `try_lock` fails while one is there.
pub mutual_exclusion :
    {w : World} (i j : ℕ)
    → Reach w
    → w.places i ≡ inside
    → w.places j ≡ inside
    → (i ≡ j) × ((try_lock w.flag).0 ≡ false)
unfolding try_lock compare_exchange
mutual_exclusion {w} i j r at_i at_j =
    let v = Reach-IsExclusive r in
    (v.alone i j (rw at_i refl) (rw at_j refl), rw (v.held i (rw at_i refl)) refl)
