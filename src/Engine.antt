-- ===== src/Engine.antt =====
-- engin/engine.hpp and .cpp: `engine_t`, the pool of threads: its start-up, the choice of a thread
-- for each call, and the check for threads that are blocked. `self` is the calling thread's id.
pub mod Start
pub mod Selectable
pub mod Running
pub mod Ending
pub mod Dispatch
pub mod Blocked
pub mod Owners
mod Tests
use chroutine.Prelude.{
  ℕ, zero, suc, ◌+◌, ◌-◌, ◌%◌, ◌^◌, Bool, true, false, not, ◌&&◌, Option, none, some, List, [], ◌∷◌,
  ◌++◌, length, get_or, ltb, ◌==◌, if◌then◌else◌,
}
use chroutine.Prelude.Int.{ℤ, pos}
use chroutine.Chroutine.{SonResult, invalid_id}
use chroutine.Scheduler
use chroutine.Thread.{Thread, ThreadState, worker, main, running, blocking, Created}
use chroutine.Thread
use chroutine.Thread.Move.{move_chroutines_to_thread}

-- `engine_t`. Threads are shared, so the tables hold their addresses and `objects` the objects;
-- `pool` is `m_pool` by thread ids, and `counter` is `ms_chroutine_id`.
pub record Engine : Type 0 where
  pub objects : ℕ → Thread
  pub pool : List (ℕ × ℕ)
  pub creating : List ℕ
  pub init_over : Bool
  pub dispatch_seed : ℕ
  pub main_thread : Option ℕ
  pub epoll_thread : Option ℕ
  pub counter : ℕ

abbrev pub put_object : (ℕ → Thread) → ℕ → Thread → ℕ → Thread
put_object objects a t b = if b == a then t else objects b

abbrev pub set_object : ℕ → Thread → Engine → Engine
set_object a t e = record e { objects = put_object e.objects a t }

-- `m_pool.find`, and `m_pool[id] = address`: a map in the order of its keys.
pub pool_find : ℕ → List (ℕ × ℕ) → Option ℕ
pool_find id [] = none
pool_find id ((k, a) ∷ pool) = if k == id then some a else pool_find id pool

pub pool_assign : ℕ → ℕ → List (ℕ × ℕ) → List (ℕ × ℕ)
pool_assign id address [] = (id, address) ∷ []
pool_assign id address ((k, a) ∷ pool) =
    let later = pool_assign id address pool in
    if k == id
    then (k, address) ∷ pool
    else if ltb id k
    then (id, address) ∷ (k, a) ∷ pool
    else (k, a) ∷ later

-- One turn of the loop of `init`, with a new thread object at `address`.
pub launch : ℕ → Engine → Engine
launch address e = record e {
  objects =
      put_object e.objects address
        (Thread.start (length e.creating) (Thread.new_thread address worker));
  creating = e.creating ++ address ∷ [];
}

-- `on_thread_ready(creating_index, thread_id)`; `m_creating.size() - 1` is a size_t.
pub on_thread_ready : ℕ → ℕ → Engine → Engine
on_thread_ready creating_index thread_id e =
    let pool = pool_assign thread_id (get_or e.creating creating_index 0) e.pool in
    if ltb ((length e.creating + (2 ^ 64 - 1)) % 2 ^ 64) creating_index then e else record e {
      pool = pool;
      init_over = if length pool == length e.creating then true else e.init_over;
    }

-- What `init` does behind its loops.
pub end_init : ℕ → Engine → Engine
end_init address e = record e {
  objects = put_object e.objects address (Thread.new_thread address main);
  main_thread = some address;
}

is_thread : ℕ → Option ℕ → Engine → Bool
is_thread id none e = false
is_thread id (some a) e = id == (e.objects a).thread_id

-- `get_thread_by_id(thread_id)`, and `get_current_thread()` with the calling thread's id.
pub get_thread_by_id : ℕ → Engine → Option ℕ
unfolding is_thread
get_thread_by_id id e =
    if not e.init_over
    then none
    else if is_thread id e.main_thread e
    then e.main_thread
    else if is_thread id e.epoll_thread e
    then e.epoll_thread
    else pool_find id e.pool

-- An int of 32 bits, by its bits, as a `size_t`: a negative one wraps to the top.
pub to_size : ℕ → ℕ
to_size seed = if ltb seed (2 ^ 31) then seed else seed + (2 ^ 64 - 2 ^ 32)

-- `m_creating[m_dispatch_seed++ % m_creating.size()]`, if there is one, and the seed. It is an int, here
-- by its bits; the increment of 2 ^ 31 - 1 has no defined result in C++ and wraps here.
pub next_dispatch : List ℕ → ℕ → Option ℕ × ℕ
next_dispatch [] seed = (none, seed)
next_dispatch (a ∷ others) seed =
    (some (get_or (a ∷ others) (to_size seed % length (a ∷ others)) 0), (seed + 1) % 2 ^ 32)

-- `get_lightest_thread()`
pub get_lightest_thread : Engine → Option ℕ × Engine
unfolding next_dispatch
get_lightest_thread e =
    let (thrd, seed) = next_dispatch e.creating e.dispatch_seed in
    if not e.init_over then (none, e) else (thrd, record e { dispatch_seed = seed })

store_created : ℕ → Created → Engine → ℕ × Engine
store_created a r e = (r.id, record (set_object a r.thread e) { counter = r.counter })

-- `create_chroutine(func, arg)`, the one in the main thread, and `create_son_chroutine(func, arg)`.
pub create_chroutine : Option ℕ → ℕ → Engine → ℕ × Engine
unfolding store_created
create_chroutine func arg e =
    let (thrd, e') = get_lightest_thread e in
    elim thrd [
      | none ↦ (invalid_id, e')
      | some a ↦ store_created a (Thread.create_chroutine e'.counter func arg (e'.objects a)) e'
    ]

pub create_chroutine_in_mainthread : Option ℕ → ℕ → Engine → ℕ × Engine
unfolding store_created
create_chroutine_in_mainthread func arg e = elim e.main_thread [
  | none ↦ (invalid_id, e)
  | some a ↦ store_created a (Thread.create_chroutine e.counter func arg (e.objects a)) e
]

pub create_son : ℕ → Option ℕ → ℕ → Engine → ℕ × Engine
unfolding store_created
create_son self func arg e = elim (get_thread_by_id self e) [
  | none ↦ (invalid_id, e)
  | some a ↦ store_created a (Thread.create_chroutine e.counter func arg (e.objects a)) e
]

-- `create_son_chroutine(func, reporter, timeout_ms)` up to the switch in `wait`, which the Boolean
-- tells of; what it returns afterwards is `Thread.get_current_reporter`.
pub create_son_chroutine : ℕ → Option ℕ → SonResult → ℕ → ℕ → ℕ → Engine → Bool × Engine
create_son_chroutine self func result arg timeout_ms now e =
    if timeout_ms == 0
    then (false, (create_son self func 0 e).1)
    else elim (get_thread_by_id self e) [
      | none ↦ (false, e)
      | some a ↦
          let r = Thread.create_son_chroutine e.counter func result arg (e.objects a) in
          let w = Thread.wait (pos timeout_ms) now r.thread in
          (w.0, record (set_object a w.1 e) { counter = r.counter })
    ]

-- `yield`, `wait` and `sleep` on the calling thread.
on_current : ℕ → (Thread → Bool × Thread) → Engine → Bool × Engine
on_current self f e = elim (get_thread_by_id self e) [
  | none ↦ (false, e)
  | some a ↦ let r = f (e.objects a) in (r.0, set_object a r.1 e)
]

pub yield : ℕ → ℤ → Engine → Bool × Engine
unfolding on_current
yield self tick e = on_current self (λ t. Thread.yield tick t) e

pub wait : ℕ → ℤ → ℕ → Engine → Bool × Engine
unfolding on_current
wait self ms now e = on_current self (λ t. Thread.wait ms now t) e

pub sleep : ℕ → ℤ → ℕ → Engine → Bool × Engine
unfolding on_current
sleep self ms now e = on_current self (λ t. Thread.sleep ms now t) e

-- `get_current_chroutine_id()`
pub get_current_chroutine_id : ℕ → Engine → ℕ
get_current_chroutine_id self e = elim (get_thread_by_id self e) [
  | none ↦ invalid_id
  | some a ↦ (e.objects a).schedule.running_id
]

-- `awake_chroutine(thread_id, id)`; false is -1.
pub awake_chroutine : ℕ → ℕ → Engine → Bool × Engine
awake_chroutine thread_id id e = elim (get_thread_by_id thread_id e) [
  | none ↦ (false, e)
  | some a ↦
      let r = Scheduler.awake_chroutine id (e.objects a).schedule in
      (r.0, set_object a (record (e.objects a) { schedule = r.1 }) e)
]

-- `register_select_obj` and `unregister_select_obj`; the id 0 is `NULL_THREAD_ID`.
on_named : ℕ → ℕ → (Thread → Thread) → Engine → Bool × Engine
on_named self thread_id f e =
    elim (get_thread_by_id (if thread_id == 0 then self else thread_id) e) [
      | none ↦ (false, e)
      | some a ↦ (true, set_object a (f (e.objects a)) e)
    ]

pub register_select_obj : ℕ → ℕ → ℕ → Engine → Bool × Engine
unfolding on_named
register_select_obj self key thread_id e =
    on_named self thread_id (λ t. Thread.register_selector key t) e

pub unregister_select_obj : ℕ → ℕ → ℕ → Engine → Bool × Engine
unfolding on_named
unregister_select_obj self key thread_id e =
    on_named self thread_id (λ t. Thread.unregister_selector key t) e

-- `stop_all()` up to `stop_main`: each thread of the pool is told to stop.
pub stop_pool : List (ℕ × ℕ) → (ℕ → Thread) → ℕ → Thread
stop_pool [] objects = objects
stop_pool ((id, a) ∷ pool) objects = stop_pool pool (put_object objects a (Thread.stop (objects a)))
