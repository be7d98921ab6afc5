-- ===== src/Thread.antt =====
-- engin/chroutine.hpp and .cpp: `chroutine_thread_t`, one kernel thread: its state and flags round
-- the tables of Schedule, the guards of its public functions, its main loop, and the objects that
-- the loop selects. `Thread/Move` has the move of its chroutines to another thread.
pub mod Load
pub mod Move
pub mod Laws
pub mod Keeps
mod Tests
use chroutine.Prelude.{
  ℕ, ◌+◌, ◌%◌, ◌^◌, Bool, true, false, Option, none, some, List, [], ◌∷◌, ltb, ◌==◌, if◌then◌else◌,
}
use chroutine.Prelude.Int.{ℤ}
use chroutine.Prelude.Ids.{contains, delete}
use chroutine.Chroutine.{Chroutine, SonResult, result_ready, invalid_id}
use chroutine.Schedule.{Schedule, empty, get_chroutine, modify_sched, clear_all_chroutine}
use chroutine.Scheduler

-- `thread_state_t`, in its order.
pub data ThreadState : Type 0 where
  init running shifting blocking finished : ThreadState

-- `state() > thread_state_t_running`
abbrev pub is_closed : ThreadState → Bool
is_closed init = false
is_closed running = false
is_closed shifting = true
is_closed blocking = true
is_closed finished = true

-- `thread_type_t`
pub data ThreadType : Type 0 where
  worker main epoll : ThreadType

-- `address` is `this`. `selector_list` has the keys of `m_selector_list`, in their order.
-- `thread_id` is 0 for the id of no thread.
pub record Thread : Type 0 where
  pub address : ℕ
  pub schedule : Schedule
  pub is_running : Bool
  pub need_stop : Bool
  pub creating_index : ℕ
  pub selector_list : List ℕ
  pub entry_time : ℕ
  pub state : ThreadState
  pub load : Load.Load
  pub type : ThreadType
  pub thread_id : ℕ

-- `new_thread()`, and `set_type`.
pub new_thread : ℕ → ThreadType → Thread
new_thread address type = record {
  address = address;
  schedule = empty;
  is_running = false;
  need_stop = false;
  creating_index = 0;
  selector_list = [];
  entry_time = 0;
  state = init;
  load = Load.initial;
  type = type;
  thread_id = 0;
}

-- `gen_chroutine_id()` on `ms_chroutine_id`, an int64_t.
pub gen_chroutine_id : ℕ → ℕ
gen_chroutine_id n = (n + 1) % 2 ^ 64

-- What a creation returns: the id or `INVALID_ID`, `ms_chroutine_id`, and the thread.
pub record Created : Type 0 where
  pub id : ℕ
  pub counter : ℕ
  pub thread : Thread

abbrev refused : ℕ → Thread → Created
refused counter t = record { id = invalid_id; counter = counter; thread = t }

abbrev on_schedule : (Schedule → Schedule) → Thread → Thread
on_schedule f t = record t { schedule = f t.schedule }

-- `create_chroutine(func, arg)`; `none` is the null function.
pub create_chroutine : ℕ → Option ℕ → ℕ → Thread → Created
create_chroutine counter none arg t = refused counter t
create_chroutine counter (some func) arg t =
    let id = gen_chroutine_id counter in
    if is_closed t.state then refused counter t else record {
      id = id;
      counter = id;
      thread = on_schedule (Scheduler.create_chroutine t.address id func arg) t;
    }

-- The end of `create_son_chroutine`, with the son's creation.
tie : ℕ → Created → Created
tie father son =
    if son.id == invalid_id then son else elim (get_chroutine son.id son.thread.schedule) [
      | none ↦ record son { id = invalid_id }
      | some pson ↦ record son { thread = on_schedule (Scheduler.adopt father son.id) son.thread }
    ]

-- `create_son_chroutine(func, reporter)`: `result` is what the reporter holds, `arg` its data.
pub create_son_chroutine : ℕ → Option ℕ → SonResult → ℕ → Thread → Created
create_son_chroutine counter func result arg t =
    let father = t.schedule.running_id in
    if is_closed t.state then refused counter t else elim (get_chroutine father t.schedule) [
      | none ↦ refused counter t
      | some pfather ↦ tie father (
          create_chroutine counter func arg
            (on_schedule (modify_sched father (λ c. record c { reporter = some result })) t))
    ]

-- `yield`, `wait` and `sleep`; the Boolean tells if the context is switched.
pub yield : ℤ → Thread → Bool × Thread
yield tick t = let r = Scheduler.yield_current tick t.schedule in (r.0, record t { schedule = r.1 })

pub wait : ℤ → ℕ → Thread → Bool × Thread
wait ms now t =
    let r = Scheduler.wait_current ms true now t.schedule in (r.0, record t { schedule = r.1 })

pub sleep : ℤ → ℕ → Thread → Bool × Thread
sleep ms now t =
    let r = Scheduler.wait_current ms false now t.schedule in (r.0, record t { schedule = r.1 })

-- `get_current_reporter()`: the reporter's result, if there is one.
pub get_current_reporter : Thread → Option SonResult
get_current_reporter t = elim (get_chroutine t.schedule.running_id t.schedule) [
  | none ↦ none
  | some c ↦ c.reporter
]

-- `register_selector` keeps the keys in order; a null pointer and a key that is there are ignored.
pub insert_key : ℕ → List ℕ → List ℕ
insert_key key [] = key ∷ []
insert_key key (k ∷ ks) = if ltb key k then key ∷ k ∷ ks else k ∷ insert_key key ks

pub register_selector : ℕ → Thread → Thread
register_selector key t =
    if key == 0
    then t
    else if contains key t.selector_list
    then t
    else record t { selector_list = insert_key key t.selector_list }

-- `unregister_selector`
pub unregister_selector : ℕ → Thread → Thread
unregister_selector key t = record t { selector_list = delete key t.selector_list }

-- `select_all()`, where `select` is what each object's `select(0)` returns.
pub sum_selected : (ℕ → ℕ) → List ℕ → ℕ
sum_selected select [] = 0
sum_selected select (k ∷ ks) = select k + sum_selected select ks

pub select_all : (ℕ → ℕ) → Thread → ℕ
select_all select t = sum_selected select t.selector_list

-- `schedule()` up to its loop, in the kernel thread `id`; one round of the loop up to the switch, at
-- the time `now`; the return from the switch; and what follows the loop.
pub enter_loop : ℕ → Thread → Thread
enter_loop id t = record t { thread_id = id; state = running; is_running = true }

-- `pick_run_chroutine` with `set_entry_time`, at the time `entry` of the switch.
pub pick : ℕ → ℕ → Thread → ℕ × Bool × Thread
pick now entry t =
    let (n, switched, s) = Scheduler.pick_run_chroutine now t.schedule in
    (n, switched, record t { schedule = s; entry_time = if switched then entry else t.entry_time })

-- `clear_entry_time` behind the switch, if there was one, and the rest of the round. The Boolean
-- tells if the thread sleeps.
pub end_round : ℕ → Bool → Thread → Bool × Thread
end_round processed switched t = (
  processed == 0,
  record t {
    entry_time = if switched then 0 else t.entry_time;
    load = Load.update processed t.load;
  },
)

pub leave_loop : Thread → Thread
leave_loop t = record t {
  is_running = false;
  state = finished;
  schedule = clear_all_chroutine t.schedule;
}

-- `start(creating_index)`, where the new kernel thread runs `schedule`, and `stop()`.
pub start : ℕ → Thread → Thread
start creating_index t = if t.is_running then t else record t { creating_index = creating_index }

pub stop : Thread → Thread
stop t = record t { need_stop = true }
