-- ===== src/Engine/Blocked.antt =====
-- engin/engine.cpp: `check_threads`, which the main thread calls every 250 ms.
pub mod Moves
pub mod Sort
use chroutine.Prelude.{
  ℕ, suc, ◌+◌, ◌%◌, Bool, true, false, not, ◌&&◌, List, [], ◌∷◌, ◌++◌, length, get_or, ltb, ◌==◌,
  if◌then◌else◌,
}
use chroutine.Thread.{Thread, ThreadState, running, blocking}
use chroutine.Thread.Move.{move_chroutines_to_thread}
use chroutine.Engine.{Engine, put_object}

-- `MAX_ENTRY_CALL_TIME_MS`
abbrev pub max_entry_call_time_ms : ℕ
max_entry_call_time_ms = 500

-- `thrd_entry_time != 0 && now > MAX_ENTRY_CALL_TIME_MS + thrd_entry_time`
abbrev pub is_late : ℕ → Thread → Bool
is_late now t = not (t.entry_time == 0) && ltb (max_entry_call_time_ms + t.entry_time) now

abbrev pub is_state_running : ThreadState → Bool
is_state_running running = true
is_state_running _ = false

abbrev pub is_state_blocking : ThreadState → Bool
is_state_blocking blocking = true
is_state_blocking _ = false

pub record Sorted : Type 0 where
  pub goods : List ℕ
  pub bads : List ℕ
  pub objects : ℕ → Thread

-- One turn of the first loop, for the thread at `a`.
unfoldable pub sort_one : ℕ → ℕ → Sorted → Sorted
sort_one now a s =
    let t = s.objects a in
    if is_late now t
    then (if is_state_running t.state then record s { bads = s.bads ++ a ∷ [] } else s)
    else if is_state_blocking t.state
    then record s { objects = put_object s.objects a (record t { state = running }) }
    else record s { goods = s.goods ++ a ∷ [] }

unfoldable pub sort : ℕ → List (ℕ × ℕ) → Sorted → Sorted
sort now [] s = s
sort now ((id, a) ∷ pool) s = sort now pool (sort_one now a s)

-- One turn of the second loop: both objects after the move.
unfoldable pub move_one : ℕ → ℕ → (ℕ → Thread) → ℕ → Thread
move_one bad good objects =
    let (t, other) = move_chroutines_to_thread (objects bad) (objects good) in
    put_object (put_object objects good other) bad t

unfoldable pub move_all : List ℕ → List ℕ → ℕ → (ℕ → Thread) → ℕ → Thread
move_all [] goods index objects = objects
move_all (bad ∷ bads) goods index objects =
    move_all bads goods (suc index) (move_one bad (get_or goods (index % length goods) 0) objects)

-- With no good thread nothing is moved.
unfoldable pub reassign : List ℕ → List ℕ → (ℕ → Thread) → ℕ → Thread
unfolding move_all
reassign [] bads objects = objects
reassign (good ∷ goods) bads objects = move_all bads (good ∷ goods) 0 objects

abbrev pub unsorted : Engine → Sorted
unsorted e = record { goods = []; bads = []; objects = e.objects }

-- `check_threads()` at the time `now`.
unfoldable pub check_threads : ℕ → Engine → Engine
unfolding reassign
check_threads now e =
    let s = sort now e.pool (unsorted e) in record e { objects = reassign s.goods s.bads s.objects }
