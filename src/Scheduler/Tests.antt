-- ===== src/Scheduler/Tests.antt =====
-- Runs of one thread's scheduler at concrete inputs, and the theorems applied there.
use chroutine.Prelude.{◌≡◌, refl, ◌⊎◌, true, false, none, some, List, not, [], ◌∷◌, ◌+◌, leb, arith}
use chroutine.Prelude.Int.{pos}
use mathlib.Core.Option
use chroutine.Chroutine.{
  Chroutine, ready, running, suspend, result_ready, invalid_id, blank, wait, yield_over, is_due,
}
use chroutine.Schedule.{
  Schedule, empty, find, erase, modify, modify_sched, get_chroutine, push_back, remove_chroutine,
}
use chroutine.Scheduler.{
  fresh, create_chroutine, touch, yield_current, wait_current, suspend_current, pass, count_down,
  scan, rewind, resume, settle, pick_from, pick_run_chroutine, awake_chroutine,
}
use chroutine.Scheduler.Hold.{hold_ms, hold, awake_chroutine-hold}
use chroutine.Scheduler.Inv.{Inv}
use chroutine.Scheduler.Pick.{Resumes, pick_run_chroutine_lem}
use chroutine.Scheduler.Progress.{Ahead, pick_run_chroutine_progress}
use chroutine.Scheduler.Steps.{picks, creates, Reach, here, next, Step-Inv, Reach-Inv}
use chroutine.Scheduler.Waits.{Pause, yields, waits, pauses, awake_chroutine-own_father}
use chroutine.Prelude.All.{all}

-- Two chroutines on the thread 0.
abbrev first : Chroutine
first = record {
  ctx = some (record { entry_arg = 0; link = 0 });
  func = 70;
  arg = 0;
  state = ready;
  yield_wait = 0;
  yield_to = 0;
  me = 1;
  father = invalid_id;
  son = invalid_id;
  reporter = none;
  stop_son_when_yield_over = false;
  moved = false;
}

abbrev second : Chroutine
second = record first { me = 2; func = 80 }

abbrev two : Schedule
two = record {
  running_id = invalid_id;
  chroutines_map = (1, true) ∷ (2, true) ∷ [];
  visited = [];
  rest = first ∷ second ∷ [];
  chroutines_to_free = [];
}

two-Inv : Inv two
unfolding find
two-Inv = record {
  valid = record { synced = record { distinct = (refl, (refl, tt)); keyed = λ i. ground arith } };
  nodes = refl;
}

abbrev started : Schedule
started = create_chroutine 0 2 80 0 (create_chroutine 0 1 70 0 empty)

created : Reach empty started
unfolding create_chroutine fresh push_back blank
created =
    next (next here (creates 0 1 70 0 refl (omega arith))) (creates 0 2 80 0 refl (omega arith))

-- The first runs, yields a frame, and the second runs; nobody is due after that.
turns :
    let s1 = (pick_run_chroutine 5 two).2 in
    let s2 = (yield_current (pos 1) s1).1 in
    let s3 = (pick_run_chroutine 6 s2).2 in
    let s4 = (wait_current (pos 10) false 6 s3).1 in
    (s1.running_id ≡ 1)
    × (s3.running_id ≡ 2)
    × ((pick_run_chroutine 7 s4).0 ≡ 0)
    × ((pick_run_chroutine 8 (pick_run_chroutine 7 s4).2).2.running_id ≡ 1)
unfolding pick_run_chroutine pick_from settle scan pass wait count_down rewind resume yield_over
    modify_sched modify remove_chroutine erase yield_current wait_current suspend_current touch
    get_chroutine
turns = (refl, refl, refl, refl)

Step-Inv_example : Inv (pick_run_chroutine 5 two).2
Step-Inv_example = Step-Inv (picks 5) two-Inv

Reach-Inv_example : Inv started
Reach-Inv_example = Reach-Inv created

abbrev first_running : Chroutine
first_running = record first { state = running }

first_is_running : get_chroutine 1 (pick_run_chroutine 5 started).2 ≡ some first_running
unfolding create_chroutine fresh push_back blank pick_run_chroutine pick_from settle scan pass wait
    count_down rewind resume yield_over modify_sched modify remove_chroutine get_chroutine
first_is_running = refl

pick_run_chroutine_lem_example : Resumes 5 (first ∷ second ∷ []) (pick_run_chroutine 5 two)
pick_run_chroutine_lem_example = pick_run_chroutine_lem 5 two refl

pick_run_chroutine_progress_example :
    let s' = (pick_run_chroutine 5 two).2 in (s'.running_id ≡ 2) ⊎ Ahead s' second 1
pick_run_chroutine_progress_example =
    pick_run_chroutine_progress 5 two (first ∷ []) second [] two-Inv refl refl refl refl

-- A father in a wait until the time 90, for the son 2.
abbrev father : Chroutine
father = record first {
  state = suspend;
  yield_to = 90;
  son = 2;
  reporter = some result_ready;
  stop_son_when_yield_over = true;
}

abbrev family : Schedule
family = record two {
  running_id = 2;
  rest = father ∷ record second { state = running; father = 1 } ∷ [];
}

abbrev both_pauses : List Pause
both_pauses = yields (pos 1) ∷ waits (pos 1000) false 40 ∷ []

awake_chroutine-own_father_example :
    let s' = (awake_chroutine 1 family).1 in
    (s'.running_id ≡ 2)
    × (all not (pauses both_pauses s').0 ≡ true)
    × ((pauses both_pauses s').1.running_id ≡ 2)
unfolding get_chroutine
awake_chroutine-own_father_example =
    awake_chroutine-own_father 1 both_pauses father family refl (omega arith) refl refl

-- The first chroutine, which runs and blocks on a channel at the time 40.
abbrev blocking : Schedule
blocking = record two { running_id = 1; rest = record first { state = running } ∷ second ∷ [] }

awake_chroutine-hold_example :
    (Option.map (is_due 50) (get_chroutine 1 (awake_chroutine 1 (hold 40 blocking).1).1)
      ≡ some true)
    × (Option.map (is_due 50) (get_chroutine 1 (hold 40 (awake_chroutine 1 blocking).1).1)
        ≡ some (leb (40 + hold_ms) 50))
unfolding get_chroutine find
awake_chroutine-hold_example =
    awake_chroutine-hold 40 50 (record first { state = running }) blocking refl refl (omega arith)
      refl refl refl refl
