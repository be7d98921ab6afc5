-- ===== src/Scheduler/Steps.antt =====
-- One thread of engin/chroutine.cpp over time: the steps that its scheduler, its running chroutine
-- and other threads make on its tables, in any order, and what holds after them.
use chroutine.Prelude.{ℕ, ◌≡◌, ◌≢◌, refl, Bool, true, false, some, List, [], ◌∷◌, arith}
use chroutine.Prelude.Int.{ℤ}
use chroutine.Prelude.All.{all}
use chroutine.Prelude.Ids.{contains}
use chroutine.Chroutine.{Chroutine, invalid_id}
use chroutine.Schedule.{Schedule, sched, empty, by_id, find, get_chroutine, remove_chroutine}
use chroutine.Schedule.Tables.{ids}
use chroutine.Scheduler.{
  is_running, create_chroutine, adopt, yield_current, wait_current, pick_run_chroutine,
  awake_chroutine, finish,
}
use chroutine.Scheduler.Inv.{
  Inv, node_ok, create_chroutine-Inv, adopt-Inv, yield_current-Inv, wait_current-Inv,
  awake_chroutine-Inv, finish-Inv, remove_chroutine-Inv,
}
use chroutine.Scheduler.Pick.{pick_run_chroutine-Inv}

-- A step on the tables of one thread, other than a move of chroutines between threads and the end of a
-- chroutine that was moved, which are in Engine/Owners; times are whatever the clock says. An id that is created is new to the thread, as
-- `gen_chroutine_id` never repeats one; `entry` ends the chroutine that the thread runs.
pub data Step (s : Schedule) : Schedule → Type 0 where
  picks : (now : ℕ) → Step s (pick_run_chroutine now s).2
  yields : (tick : ℤ) → Step s (yield_current tick s).1
  waits : (ms : ℤ) (stop_son : Bool) (now : ℕ) → Step s (wait_current ms stop_son now s).1
  creates :
      (self id func arg : ℕ)
      → contains id (ids (sched s)) ≡ false
      → id ≢ invalid_id
      → Step s (create_chroutine self id func arg s)
  adopts : (father son : ℕ) → Step s (adopt father son s)
  awakes : (id : ℕ) → Step s (awake_chroutine id s).1
  ends : (p_c : Chroutine) → p_c.me ≡ s.running_id → Step s (finish p_c s)
  removes : (id : ℕ) → Step s (remove_chroutine id s)

pub data Reach (s : Schedule) : Schedule → Type 0 where
  here : Reach s s
  next : {t u : Schedule} → Reach s t → Step t u → Reach s u

-- Every step keeps the tables in step and at most one chroutine running.
pub Step-Inv : {s t : Schedule} → Step s t → Inv s → Inv t
Step-Inv (picks now) v = pick_run_chroutine-Inv now v
Step-Inv (yields tick) v = yield_current-Inv tick v
Step-Inv (waits ms stop_son now) v = wait_current-Inv ms stop_son now v
Step-Inv (creates self id func arg new ne) v = create_chroutine-Inv self id func arg new ne v
Step-Inv (adopts father son) v = adopt-Inv father son v
Step-Inv (awakes id) v = awake_chroutine-Inv id v
Step-Inv (ends p_c e) v = finish-Inv p_c e v
Step-Inv (removes id) v = remove_chroutine-Inv id v

empty-Inv : Inv empty
unfolding find
empty-Inv = record {
  valid = record { synced = record { distinct = tt; keyed = λ i. refl } };
  nodes = refl;
}

-- From a thread's start on, by any steps in any order, where no chroutine is moved from this thread to
-- another one or to it, nor ends here after such a move: the map points to exactly the
-- chroutines of the list, no two of which have one id, and a chroutine in the state `running` is the
-- one that the thread runs.
pub Reach-Inv : {s : Schedule} → Reach empty s → Inv s
Reach-Inv here = empty-Inv
Reach-Inv (next r st) = Step-Inv st (Reach-Inv r)

by_id-all :
    (p : Chroutine → Bool) (id : ℕ) (cs : List Chroutine) (c : Chroutine)
    → all p cs ≡ true
    → by_id id cs ≡ some c
    → p c ≡ true
unfolding by_id
by_id-all p id [] c a e = absurd (ground arith)
by_id-all p id (x ∷ cs) c a e = ground (arith, by_id-all p id cs c)

-- The chroutine that yields has used up its frames, so `yield_wait += tick` sets them to `tick`: they
-- never add up, and do not overflow. It is the one that the thread runs.
pub running_yield_wait :
    (id : ℕ) (c : Chroutine) {s : Schedule}
    → Reach empty s
    → get_chroutine id s ≡ some c
    → is_running c.state ≡ true
    → (c.yield_wait ≡ 0) × (c.me ≡ s.running_id) × (s.running_id ≢ invalid_id)
unfolding get_chroutine
running_yield_wait id c {s} r e run =
    ground (arith, by_id-all (node_ok s.running_id) id (sched s) c (Reach-Inv r).nodes)
