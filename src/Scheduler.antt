-- ===== src/Scheduler.antt =====
-- engin/chroutine.cpp: the functions of `chroutine_thread_t` that choose, suspend, wake and end
-- chroutines, over the tables of Schedule. Each runs under `m_chroutine_lock` or in the thread
-- itself, so it is one step. A switch of contexts ends the step: what the chroutine then does is
-- further steps, in Scheduler/Steps.
pub mod Scan
pub mod Inv
pub mod Pick
pub mod Progress
pub mod Steps
pub mod Waits
pub mod Idle
pub mod Keeps
pub mod Hold
mod Tests
use chroutine.Prelude.{
  ℕ, ◌+◌, Bool, true, false, Option, none, some, List, [], ◌∷◌, ◌++◌, ltb, ◌==◌, if◌then◌else◌,
}
use chroutine.Prelude.Int.{ℤ, positive}
use chroutine.Chroutine.{
  Chroutine, ready, running, suspend, State, SonResult, result_done, result_timeout, Context,
  invalid_id, blank, wait, yield_over, son_finished,
}
use chroutine.Schedule.{
  Schedule, sched, find, assign, get_chroutine, modify_sched, push_back, remove_chroutine,
}

abbrev pub is_running : State → Bool
is_running running = true
is_running _ = false

-- The object of `create_chroutine` on the thread `self`.
pub fresh : ℕ → ℕ → ℕ → ℕ → Chroutine
fresh self id func arg = record (blank id) {
  ctx = some (record { entry_arg = self; link = self });
  func = func;
  arg = arg;
  state = ready;
}

-- `create_chroutine` behind its guards, with the id that `gen_chroutine_id` gave.
unfoldable pub create_chroutine : ℕ → ℕ → ℕ → ℕ → Schedule → Schedule
create_chroutine self id func arg s = push_back (fresh self id func arg) s

-- The end of `create_son_chroutine`: the two are tied by their ids.
pub adopt : ℕ → ℕ → Schedule → Schedule
adopt father son s =
    modify_sched father (λ c. record c { son = son })
      (modify_sched son (λ c. record c { father = father }) s)

-- `chroutines_map[id]` where it is read: a new key gets a null pointer.
pub touch : ℕ → Schedule → Schedule
touch id s = elim (find id s.chroutines_map) [
  | none ↦ record s { chroutines_map = assign id false s.chroutines_map }
  | some b ↦ s
]

-- What `yield_current` and `wait_current` share: the running chroutine is suspended with `change`,
-- and the thread runs none. The Boolean tells if they switch to the main context.
suspend_current : (Chroutine → Chroutine) → Schedule → Bool × Schedule
suspend_current change s =
    let s' = touch s.running_id s in
    elim (get_chroutine s.running_id s') [
      | none ↦ (false, s')
      | some co ↦
          if is_running co.state
          then (true, record (modify_sched s.running_id change s') { running_id = invalid_id })
          else (false, s')
    ]

-- `yield_current(tick)`
pub yield_current : ℤ → Schedule → Bool × Schedule
yield_current tick s =
    if positive tick == 0
    then (false, s)
    else if s.running_id == invalid_id
    then (false, s)
    else suspend_current
        (λ co. record co { state = suspend; yield_wait = co.yield_wait + positive tick }) s

-- `wait_current(wait_time_ms, stop_son_after_wait)` at the time `now`.
pub wait_current : ℤ → Bool → ℕ → Schedule → Bool × Schedule
wait_current wait_time_ms stop_son now s =
    if positive wait_time_ms == 0
    then (false, s)
    else if s.running_id == invalid_id
    then (false, s)
    else suspend_current
        (λ co. record co {
          state = suspend;
          yield_to = now + positive wait_time_ms;
          stop_son_when_yield_over = stop_son;
        })
        s

-- `node->has_moved() || node->wait(now) > 0`, and the node as the test leaves it.
pub pass : ℕ → Chroutine → Bool × Chroutine
pass now c = if c.moved then (true, c) else (let (w, c') = wait now c in (ltb 0 w, c'))

-- The loop of `pick_run_chroutine` from `sched_iter` on, once `p_c` is set: it goes on to the end.
pub count_down : ℕ → List Chroutine → List Chroutine
count_down now [] = []
count_down now (c ∷ cs) = (pass now c).1 ∷ count_down now cs

-- The nodes that the loop passes over, then the one that it picks and those behind, if any.
pub record Scanned : Type 0 where
  pub passed : List Chroutine
  pub picked : Option (Chroutine × List Chroutine)

pub scan : ℕ → List Chroutine → Scanned
scan now [] = record { passed = []; picked = none }
scan now (c ∷ cs) =
    let (skip, c') = pass now c in
    let later = scan now cs in
    if skip
    then record later { passed = c' ∷ later.passed }
    else record { passed = []; picked = some (c', count_down now cs) }

-- `sched_iter` at the end starts again at the beginning.
pub rewind : Schedule → Schedule
rewind s = elim s.rest [ [] ↦ record s { visited = []; rest = s.visited } | _ ↦ s ]

-- The picked chroutine, at the end of `visited`, becomes the running one: a son that has run out of
-- time is removed first.
pub resume : ℕ → Chroutine → Schedule → Schedule
resume id p_c s =
    let (timeout_son, p_c') = yield_over result_timeout p_c in
    record (modify_sched id (λ c. record c { state = running })
      (remove_chroutine timeout_son (record s { visited = s.visited ++ p_c' ∷ [] }))) {
        running_id = id;
      }

-- `m_schedule.sched_iter = sched_iter` behind the loop, and the resumption.
pub settle : Scanned → Schedule → ℕ × Bool × Schedule
settle sc s = elim sc.picked [
  | none ↦ (0, false, record s { visited = s.visited ++ sc.passed; rest = [] })
  | some (p_c, behind) ↦
      (1, true, resume p_c.me p_c (record s { visited = s.visited ++ sc.passed; rest = behind }))
]

pub pick_from : ℕ → Schedule → ℕ × Bool × Schedule
pick_from now s = settle (scan now s.rest) s

-- `pick_run_chroutine()` at the time `now`, up to the switch: its result, and whether it switches.
-- An empty list falls out of the loop at once.
pub pick_run_chroutine : ℕ → Schedule → ℕ × Bool × Schedule
pick_run_chroutine now s =
    if s.running_id == invalid_id
    then pick_from now (rewind (record s { chroutines_to_free = [] }))
    else (1, false, s)

-- `awake_chroutine(id)`: false is the result -1, for an id that is not there.
pub awake_chroutine : ℕ → Schedule → Bool × Schedule
awake_chroutine id s = elim (get_chroutine id s) [
  | none ↦ (false, s)
  | some c ↦ (
    true,
    remove_chroutine (yield_over result_done c).0
        (modify_sched id (λ c'. (yield_over result_done c').1) s),
  )
]

notify : ℕ → Schedule → Schedule
notify father s =
    if father == invalid_id
    then s
    else elim (get_chroutine father s) [ none ↦ s | some c ↦ modify_sched father son_finished s ]

-- The end of `entry`, behind `p_c->func(p_c->arg)`, on the tables of the thread that `entry` was
-- given. `p_c` is the object that is ending.
pub finish : Chroutine → Schedule → Schedule
finish p_c s = notify p_c.father (record (remove_chroutine p_c.me s) { running_id = invalid_id })
