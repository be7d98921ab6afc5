-- ===== src/Engine/Tests.antt =====
-- The engine at concrete inputs, and the theorems applied there.
use chroutine.Prelude.{
  ℕ, ◌≡◌, ◌<◌, refl, true, false, some, none, [], ◌∷◌, arith, length, ◌==◌, if◌then◌else◌,
}
use chroutine.Thread.{Thread, worker, running as thread_running}
use chroutine.Thread.Move.Apart.{left}
use chroutine.Schedule.{empty}
use chroutine.Engine.{Engine, create_chroutine, launch, on_thread_ready, pool_find}
use chroutine.Engine.Start.{
  before_init, Starting, begins, launches, readies, init_over_early, Starting-all_ready,
}
use chroutine.Engine.Owners.{IsOwned}
use chroutine.Engine.Owners.Steps.{here, next, launches as launched, creates, checks, Reach-IsOwned}
use chroutine.Engine.Dispatch.{chosen, get_lightest_thread-fair}
use chroutine.Engine.Blocked.{sort, sort_one, unsorted, check_threads}
use chroutine.Engine.Blocked.Sort.{check_threads-late}

-- The thread 1 has been in a chroutine since the time 40; the thread 2 is in none.
abbrev objects : ℕ → Thread
objects a = record {
  address = a;
  schedule = record {
    running_id = 5;
    chroutines_map = [];
    visited = [];
    rest = [];
    chroutines_to_free = [];
  };
  is_running = true;
  need_stop = false;
  creating_index = 0;
  selector_list = [];
  entry_time = if a == 1 then 40 else 0;
  state = thread_running;
  load = record { last = none; working = 0; counting_left = 9 };
  type = worker;
  thread_id = 30;
}

abbrev engine : Engine
engine = record {
  objects = objects;
  pool = (31, 1) ∷ (32, 2) ∷ [];
  creating = 1 ∷ 2 ∷ [];
  init_over = true;
  dispatch_seed = 7;
  main_thread = none;
  epoll_thread = none;
  counter = 9;
}

get_lightest_thread-fair_example : (i : ℕ) × (i < 2) × (chosen i engine ≡ some 2)
get_lightest_thread-fair_example =
    get_lightest_thread-fair engine 1 refl (omega arith) (omega arith)

init_over_early_example :
    (e : Engine) × Starting 4 e []
    × (e.init_over ≡ true)
    × (length e.pool ≡ 1)
    × (length e.creating < 4)
init_over_early_example = init_over_early 4 1 31 objects (omega arith)

abbrev both_ready : Engine
both_ready = on_thread_ready 0 31 (on_thread_ready 1 32 (launch 2 (launch 1 (before_init objects))))

both_start : Starting 2 both_ready []
unfolding launch pool_find
both_start = readies [] 0 31 [] (
    readies ((0, 31) ∷ []) 1 32 [] (
      launches 2 32 (launches 1 31 (begins objects) (omega arith) refl refl) (omega arith) refl
        refl))

two_launched : length both_ready.creating ≡ 2
unfolding on_thread_ready launch
two_launched = refl

Starting-all_ready_example : (both_ready.init_over ≡ true) × (length both_ready.pool ≡ 2)
Starting-all_ready_example =
    Starting-all_ready 2 (omega arith) (omega arith) both_start two_launched

one_good : 0 < length (sort 600 engine.pool (unsorted engine)).goods
unfolding sort sort_one
one_good = omega arith

check_threads-late_example : (check_threads 600 engine).objects 1 ≡ left (engine.objects 1)
check_threads-late_example =
    check_threads-late 600 engine 1 (λ x. refl) (refl, (refl, tt)) refl refl refl one_good

-- An engine at its start.
abbrev blank_engine : Engine
blank_engine = record {
  objects = λ a. record (objects a) { schedule = empty };
  pool = [];
  creating = [];
  init_over = false;
  dispatch_seed = 0;
  main_thread = none;
  epoll_thread = none;
  counter = 0;
}

Reach-IsOwned_example :
    IsOwned (check_threads 900 (create_chroutine (some 7) 3 (launch 1 blank_engine)).1)
unfolding launch
Reach-IsOwned_example =
    Reach-IsOwned {e = blank_engine} (refl, λ a. (refl, refl))
      (next (next (next here (launched 1)) (creates (some 7) 3 (omega arith))) (checks 900))
