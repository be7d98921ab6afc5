-- ===== src/Thread/Move/Apart.antt =====
-- What `move_chroutines_to_thread` of engin/chroutine.cpp does to each of two threads.
use chroutine.Prelude.{◌≡◌, refl, inl, inr, true, false, ◌==◌, Bool-cases}
use chroutine.Thread.{Thread, blocking}
use chroutine.Thread.Move.{leave, move_chroutines_to_thread}

-- A thread when its chroutines have been moved away.
abbrev pub left : Thread → Thread
left t = record t { state = blocking; schedule = leave t.schedule }

pub address-move :
    (t other : Thread)
    → ((move_chroutines_to_thread t other).0.address ≡ t.address)
      × ((move_chroutines_to_thread t other).1.address ≡ other.address)
unfolding move_chroutines_to_thread
address-move t other = elim (Bool-cases (other.address == t.address)) [
  | inl same ↦ simp same (refl, refl)
  | inr differs ↦ simp differs (refl, refl)
]

pub move-left :
    (t other : Thread)
    → (other.address == t.address) ≡ false
    → (move_chroutines_to_thread t other).0 ≡ left t
unfolding move_chroutines_to_thread
move-left t other differs = simp differs refl

pub move_self :
    (t other : Thread)
    → (other.address == t.address) ≡ true
    → move_chroutines_to_thread t other ≡ (t, other)
unfolding move_chroutines_to_thread
move_self t other same = simp same refl
