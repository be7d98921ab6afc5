-- ===== src/Thread/Move.antt =====
-- engin/chroutine.cpp: `resettle` and `move_chroutines_to_thread`, by which a blocked thread hands
-- its waiting chroutines to another, and `entry`, which they were started with.
pub mod Conserve
pub mod Entry
pub mod Apart
mod Tests
use chroutine.Prelude.{
  ℕ, Bool, true, false, Option, none, some, List, [], ◌∷◌, ◌++◌, map, ◌==◌, if◌then◌else◌,
}
use chroutine.Chroutine.{Chroutine, Context, move, set_moved}
use chroutine.Schedule.{Schedule, sched, get_chroutine, push_back, remove_chroutine}
use chroutine.Scheduler
use chroutine.Thread.{Thread, blocking}

set_link : ℕ → Option Context → Option Context
set_link link none = none
set_link link (some x) = some (record x { link = link })

-- `uc_link` is set to the main context of the thread `link`.
pub relink : ℕ → Chroutine → Chroutine
relink link c = record c { ctx = set_link link c.ctx }

-- `resettle(chroutine)` on the tables of the thread `address`: a new object by the move constructor.
-- Its result is the id, which the move keeps.
pub resettle : ℕ → Chroutine → Schedule → Schedule
resettle address c other = push_back (relink address (move c).0) other

-- One turn of the loop over `chroutines_sched`: the running one is skipped.
pub resettle_one : ℕ → ℕ → Chroutine → Schedule → Schedule
resettle_one running address c other = if c.me == running then other else resettle address c other

-- The loop: all but the running one are resettled, in order.
pub resettle_all : ℕ → ℕ → List Chroutine → Schedule → Schedule
resettle_all running address [] other = other
resettle_all running address (c ∷ cs) other =
    resettle_all running address cs (resettle_one running address c other)

-- What the loop leaves in the list, and the ids that it collects.
pub moved_from : ℕ → Chroutine → Chroutine
moved_from running c = if c.me == running then c else set_moved (move c).1

pub ids_to_move : ℕ → List Chroutine → List ℕ
ids_to_move running [] = []
ids_to_move running (c ∷ cs) =
    let later = ids_to_move running cs in if c.me == running then later else c.me ∷ later

pub remove_all : List ℕ → Schedule → Schedule
remove_all [] s = s
remove_all (id ∷ rest) s = remove_all rest (remove_chroutine id s)

-- The tables of the thread that is left.
pub leave : Schedule → Schedule
leave s = remove_all (ids_to_move s.running_id (sched s)) (record s {
  visited = map (moved_from s.running_id) s.visited;
  rest = map (moved_from s.running_id) s.rest;
})

-- `move_chroutines_to_thread(other_thread)`: both threads. Meanwhile the state is `shifting`, in which
-- the thread creates no chroutine.
pub move_chroutines_to_thread : Thread → Thread → Thread × Thread
move_chroutines_to_thread t other = if other.address == t.address then (t, other) else (
  record t { state = blocking; schedule = leave t.schedule },
  record other {
    schedule = resettle_all t.schedule.running_id other.address (sched t.schedule) other.schedule;
  },
)

-- The argument of `entry` is the thread `a`.
pub entered_with : ℕ → Option Context → Bool
entered_with a none = false
entered_with a (some x) = x.entry_arg == a

-- The end of `entry` for `p_c`, whatever thread it runs on: it acts on the thread of its argument.
pub entry_end : Chroutine → (ℕ → Thread) → ℕ → Thread
entry_end p_c threads a =
    let t = threads a in
    if entered_with a p_c.ctx then record t { schedule = Scheduler.finish p_c t.schedule } else t
