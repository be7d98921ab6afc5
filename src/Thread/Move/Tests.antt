-- ===== src/Thread/Move/Tests.antt =====
-- A move of one thread's chroutines at a concrete input, and the theorems applied there.
use chroutine.Prelude.{ℕ, ◌≡◌, refl, none, some, [], ◌∷◌, true, false, arith}
use chroutine.Chroutine.{Chroutine, running, suspend, invalid_id, move}
use chroutine.Schedule.{sched, find}
use chroutine.Schedule.Tables.{ids, IsValid}
use chroutine.Scheduler.{pick_run_chroutine}
use chroutine.Thread.{Thread, running as thread_running, worker, blocking}
use chroutine.Thread.Move.{relink, entry_end, move_chroutines_to_thread}
use chroutine.Thread.Move.Conserve.{move_chroutines_to_thread_lem}
use chroutine.Thread.Move.Entry.{entry_end-moved}

abbrev busy : Chroutine
busy = record {
  ctx = some (record { entry_arg = 3; link = 3 });
  func = 70;
  arg = 0;
  state = running;
  yield_wait = 0;
  yield_to = 0;
  me = 1;
  father = invalid_id;
  son = invalid_id;
  reporter = none;
  stop_son_when_yield_over = false;
  moved = false;
}

abbrev idle : Chroutine
idle = record busy { me = 2; state = suspend }

abbrev stuck : Thread
stuck = record {
  address = 3;
  schedule = record {
    running_id = 1;
    chroutines_map = (1, true) ∷ (2, true) ∷ [];
    visited = busy ∷ [];
    rest = idle ∷ [];
    chroutines_to_free = [];
  };
  is_running = true;
  need_stop = false;
  creating_index = 0;
  selector_list = [];
  entry_time = 40;
  state = thread_running;
  load = record { last = none; working = 0; counting_left = 9 };
  type = worker;
  thread_id = 33;
}

abbrev good : Thread
good = record stuck {
  address = 4;
  schedule = record {
    running_id = invalid_id;
    chroutines_map = [];
    visited = [];
    rest = [];
    chroutines_to_free = [];
  };
  entry_time = 0;
  thread_id = 34;
}

stuck-IsValid : IsValid stuck.schedule
unfolding find
stuck-IsValid = record {
  synced = record { distinct = (refl, (refl, tt)); keyed = λ i. ground arith };
}

good-IsValid : IsValid good.schedule
unfolding find
good-IsValid = record { synced = record { distinct = tt; keyed = λ i. refl } }

move_chroutines_to_thread_lem_example :
    let (t', other') = move_chroutines_to_thread stuck good in
    (ids (sched t'.schedule) ≡ 1 ∷ [])
    × (t'.state ≡ blocking)
    × (ids (sched other'.schedule) ≡ 2 ∷ [])
    × IsValid t'.schedule
    × IsValid other'.schedule
move_chroutines_to_thread_lem_example =
    move_chroutines_to_thread_lem stuck good (omega arith) stuck-IsValid good-IsValid
      (refl, (refl, tt))

-- The moved chroutine when it has become the running one of the thread 4.
abbrev threads : ℕ → Thread
threads a = record good { schedule = record good.schedule { running_id = 2 } }

entry_end-moved_example :
    let ended = relink 4 (move idle).0 in
    (entry_end ended threads 4 ≡ threads 4)
    × (pick_run_chroutine 60 (entry_end ended threads 4).schedule
        ≡ (1, false, (threads 4).schedule))
    × ((entry_end ended threads 3).schedule.running_id ≡ invalid_id)
entry_end-moved_example =
    entry_end-moved 60 4 idle (record { entry_arg = 3; link = 3 }) threads refl (omega arith) refl
      (omega arith)
