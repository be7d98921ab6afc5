-- ===== src/Chutex/Tests.antt =====
-- Two chroutines at the lock, and the theorem applied there.
use chroutine.Prelude.{◌≡◌, ℕ, refl, false, true}
use chroutine.Chutex.{try_lock, lock_turn, compare_exchange}
use chroutine.Chutex.Exclusion.{
  World, Reach, here, next, begins, turns, inside, spinning, set_place, free_world, turn,
  mutual_exclusion,
}

-- The first gets the lock at its second exchange; the second turns in vain.
abbrev contended : World
contended =
    turn 2 false
      (set_place 2 spinning (turn 1 false (turn 1 true (set_place 1 spinning free_world))))

contended_reached : Reach contended
unfolding lock_turn compare_exchange
contended_reached =
    next
      (next (next (next (next here (begins 1 refl)) (turns 1 true refl)) (turns 1 false refl))
        (begins 2 refl))
      (turns 2 false refl)

first_inside : contended.places 1 ≡ inside
unfolding lock_turn compare_exchange
first_inside = refl

second_spins : contended.places 2 ≡ spinning
unfolding lock_turn compare_exchange
second_spins = refl

mutual_exclusion_example : let i : ℕ = 1 in (i ≡ i) × ((try_lock contended.flag).0 ≡ false)
mutual_exclusion_example = mutual_exclusion 1 1 contended_reached first_inside first_inside
