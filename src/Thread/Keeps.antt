-- ===== src/Thread/Keeps.antt =====
-- The functions of `chroutine_thread_t` in engin/chroutine.cpp bring no chroutine into a thread, except
-- for the creations.
pub mod Makes
use chroutine.Prelude.{
  ℕ, ◌+◌, ◌≡◌, refl, sym, ap, ◌∙◌, ◌⊎◌, inl, inr, Bool, true, false, Option, none, some, List, [],
  ◌∷◌, ◌++◌, ◌==◌, ==_iff, if◌then◌else◌, arith, Bool-cases, Option-cases,
}
use mathlib.Core.List.{map-append}
use chroutine.Prelude.Int.{ℤ}
use chroutine.Prelude.Ids.{contains, contains-append}
use chroutine.Chroutine.{Chroutine, SonResult, invalid_id, blank}
use chroutine.Schedule.{
  Schedule, sched, empty, get_chroutine, modify_sched, push_back, clear_all_chroutine,
}
use chroutine.Schedule.Tables.{ids, IsValid, IsSynced, push_back-IsValid, sched-push_back}
use chroutine.Schedule.Nodes.{
  sched-modify_sched, sched-clear_all_chroutine, clear_all_chroutine-IsValid, empty-IsValid,
}
use chroutine.Scheduler.{fresh}
use chroutine.Scheduler
use chroutine.Scheduler.Keeps.{
  me-fresh, Keeps, Keeps-refl, Keeps-trans, Keeps-same, modify_sched-Keeps, adopt-Keeps,
  yield_current-Keeps, wait_current-Keeps,
}
use chroutine.Scheduler.Keeps.Picks.{pick_run_chroutine-Keeps}
use chroutine.Thread.{
  Thread, ThreadType, Created, gen_chroutine_id, is_closed, create_chroutine, create_son_chroutine,
  tie, yield, wait, sleep, pick, end_round, enter_loop, leave_loop, new_thread, start, refused,
}

-- A change of a thread that keeps its address, keeps its tables in step and brings no chroutine in.
abbrev pub KeepsThread : Thread → Thread → Type 0
KeepsThread t u = (u.address ≡ t.address) × Keeps t.schedule u.schedule

pub KeepsThread-trans : (t u w : Thread) → KeepsThread t u → KeepsThread u w → KeepsThread t w
KeepsThread-trans t u w (home, first) (home', second) =
    (home' ∙ home, Keeps-trans t.schedule u.schedule w.schedule first second)

pub yield-KeepsThread : (tick : ℤ) (t : Thread) → KeepsThread t (yield tick t).1
unfolding yield
yield-KeepsThread tick t = (refl, yield_current-Keeps tick t.schedule)

pub wait-KeepsThread : (ms : ℤ) (now : ℕ) (t : Thread) → KeepsThread t (wait ms now t).1
unfolding wait
wait-KeepsThread ms now t = (refl, wait_current-Keeps ms true now t.schedule)

pub sleep-KeepsThread : (ms : ℤ) (now : ℕ) (t : Thread) → KeepsThread t (sleep ms now t).1
unfolding sleep
sleep-KeepsThread ms now t = (refl, wait_current-Keeps ms false now t.schedule)

pub pick-KeepsThread : (now entry : ℕ) (t : Thread) → KeepsThread t (pick now entry t).2
unfolding pick
pick-KeepsThread now entry t = (refl, pick_run_chroutine-Keeps now t.schedule)

pub end_round-KeepsThread :
    (processed : ℕ) (switched : Bool) (t : Thread)
    → KeepsThread t (end_round processed switched t).1
unfolding end_round
end_round-KeepsThread processed switched t = (refl, Keeps-refl t.schedule)

pub enter_loop-KeepsThread : (id : ℕ) (t : Thread) → KeepsThread t (enter_loop id t)
unfolding enter_loop
enter_loop-KeepsThread id t = (refl, Keeps-refl t.schedule)

pub leave_loop-KeepsThread : (t : Thread) → KeepsThread t (leave_loop t)
unfolding leave_loop
leave_loop-KeepsThread t = (
  refl,
  λ v. (
    clear_all_chroutine-IsValid t.schedule,
    λ i there. absurd (
        ground (arith, ap (λ l. contains i (ids l)) (sched-clear_all_chroutine t.schedule), there)),
  ),
)

-- A new thread object in the place of another.
pub new_thread-KeepsThread :
    (address : ℕ) (type : ThreadType) (t : Thread)
    → t.address ≡ address
    → KeepsThread t (new_thread address type)
unfolding new_thread
new_thread-KeepsThread address type t e =
    (sym e, λ v. (empty-IsValid, λ i there. absurd (ground arith)))

pub start-KeepsThread :
    (index address : ℕ) (type : ThreadType) (t : Thread)
    → t.address ≡ address
    → KeepsThread t (start index (new_thread address type))
unfolding start new_thread
start-KeepsThread index address type t e =
    (sym e, λ v. (empty-IsValid, λ i there. absurd (ground arith)))
