-- ===== src/Engine/Running.antt =====
-- engin/engine.cpp: how the engine's threads begin and end: the epoll thread and the HTTP stubs, `run` up
-- to the main loop, and `stop_all`.
use chroutine.Prelude.{ℕ, not, Option, none, some, List, [], ◌∷◌, ◌++◌, if◌then◌else◌}
use chroutine.Chroutine.{SonResult}
use chroutine.Thread
use chroutine.Thread.{Thread, epoll, new_thread}
use chroutine.Engine.{
  Engine, put_object, set_object, pool_find, pool_assign, get_thread_by_id,
  create_chroutine_in_mainthread, create_son, stop_pool,
}
use chroutine.Engine.Selectable

-- The first lines of `init`, with a new thread object at `address`.
pub start_epoll : ℕ → Engine → Engine
start_epoll address e = record e {
  objects = put_object e.objects address (Thread.start 0 (new_thread address epoll));
  epoll_thread = some address;
}

-- The loop of `on_thread_ready` over the pool, once all are ready: a stub is made for each thread, at the
-- next of the addresses. The result has the table of the stubs and the objects destroyed.
pub make_stubs :
    ℕ → List (ℕ × ℕ) → List ℕ → List (ℕ × ℕ) × Engine × List ℕ → List (ℕ × ℕ) × Engine × List ℕ
make_stubs self [] addresses s = s
make_stubs self (thrd ∷ pool) [] s = s
make_stubs self ((id, a) ∷ pool) (address ∷ addresses) (stubs, e, destroyed) =
    let (made, e', gone) = Selectable.create self address id e in
    let stubs' : List (ℕ × ℕ) = elim made [ none ↦ stubs | some p ↦ pool_assign id p stubs ] in
    make_stubs self pool addresses (stubs', e', destroyed ++ gone)

-- The guards of `exec_curl`: the stub of the thread `self`.
pub stub_of : ℕ → List (ℕ × ℕ) → Engine → Option ℕ
stub_of self stubs e = if not e.init_over then none else pool_find self stubs

-- `get_my_reporter()`
pub get_my_reporter : ℕ → Engine → Option SonResult
get_my_reporter self e = elim (get_thread_by_id self e) [
  | none ↦ none
  | some a ↦ Thread.get_current_reporter (e.objects a)
]

-- `run()` up to `schedule()`, in the kernel thread `self`: the chroutine that checks the threads, whose
-- function is `check`, and the timer that flushes the log, at `timer`.
pub begin_run : ℕ → ℕ → Engine → Option Engine
begin_run self check e = elim e.main_thread [
  | none ↦ none
  | some a ↦
      let named = set_object a (record (e.objects a) { thread_id = self }) e in
      if (e.objects a).is_running
      then none
      else some (create_chroutine_in_mainthread (some check) 0 named).1
]

-- `trigger` is the function of the chroutine that the timer's `start` creates.
pub run : ℕ → ℕ → ℕ → ℕ → Engine → Option (Option ℕ × Engine × List ℕ)
run self check timer trigger e = elim (begin_run self check e) [
  | none ↦ none
  | some e' ↦
      let (made, registered, destroyed) = Selectable.create self timer 0 e' in
      let started : Engine = elim made [
        | none ↦ registered
        | some p ↦ (create_son self (some trigger) 0 registered).1
      ] in
      some (made, started, destroyed)
]

-- What the chroutine of `stop_main` does behind the timer: the main thread and the epoll thread stop.
pub stop_thread : Option ℕ → Engine → Engine
stop_thread none e = e
stop_thread (some a) e = set_object a (Thread.stop (e.objects a)) e

pub stop_main : Engine → Engine
stop_main e = stop_thread e.epoll_thread (stop_thread e.main_thread e)

-- `stop_all()`, where `func` is the function of that chroutine.
pub stop_all : ℕ → Engine → Engine
stop_all func e =
    (create_chroutine_in_mainthread (some func) 0
      (record e { objects = stop_pool e.pool e.objects })).1
