-- ===== src/Chroutine.antt =====
-- engin/chroutine.hpp and .cpp: `chroutine_t`, one task, with the waits that it may be in.
-- engin/reporter.hpp: `son_result_t` and the result of a `reporter_t`.
pub mod Laws
mod Tests
use chroutine.Prelude.{
  ℕ, ◌+◌, ◌-◌, ◌^◌, Bool, true, false, not, ◌&&◌, ◌||◌, Option, none, some, ltb, leb, ◌==◌,
  if◌then◌else◌,
}

-- `chroutine_id_t` is an int64_t of which only equality is used: its bit pattern, with -1 for
-- `INVALID_ID`.
abbrev pub invalid_id : ℕ
invalid_id = 2 ^ 64 - 1

-- `son_result_t`
pub data SonResult : Type 0 where
  result_ready result_done result_error result_timeout : SonResult

-- `chroutine_state_t`
pub data State : Type 0 where
  ready running suspend : State

-- What the program sets of a `ucontext_t`: the thread object that `makecontext` passes to `entry`,
-- and the thread whose main context `uc_link` names.
pub record Context : Type 0 where
  pub entry_arg : ℕ
  pub link : ℕ

-- `chroutine_t`. The reporter is shared with the user's code, which reads its result; `func` and
-- `arg` are handed on. The stack is memory that belongs to `ctx`, so `none` stands for both null.
pub record Chroutine : Type 0 where
  pub ctx : Option Context
  pub func : ℕ
  pub arg : ℕ
  pub state : State
  pub yield_wait : ℕ
  pub yield_to : ℕ
  pub me : ℕ
  pub father : ℕ
  pub son : ℕ
  pub reporter : Option SonResult
  pub stop_son_when_yield_over : Bool
  pub moved : Bool

-- The members' initial values; `create_chroutine` fills in the rest.
unfoldable pub blank : ℕ → Chroutine
blank id = record {
  ctx = none;
  func = 0;
  arg = 0;
  state = suspend;
  yield_wait = 0;
  yield_to = 0;
  me = id;
  father = invalid_id;
  son = invalid_id;
  reporter = none;
  stop_son_when_yield_over = false;
  moved = false;
}

-- `wait(now)`: 0 if the wait is over, and the frames left are counted down.
unfoldable pub wait : ℕ → Chroutine → ℕ × Chroutine
wait now c =
    if ltb 0 c.yield_wait
    then (c.yield_wait, record c { yield_wait = c.yield_wait - 1 })
    else if not (c.yield_to == 0) && ltb now c.yield_to
    then (1, c)
    else (0, c)

-- `reporter.get()->set_result(result)`, if there is a reporter.
unfoldable pub set_result : SonResult → Option SonResult → Option SonResult
set_result r none = none
set_result r (some old) = some r

-- `yield_over(result)`: the son to stop, or `INVALID_ID`.
unfoldable pub yield_over : SonResult → Chroutine → ℕ × Chroutine
unfolding set_result
yield_over result c =
    if not (c.yield_to == 0) && c.stop_son_when_yield_over
    then (
      c.son,
      record c {
        reporter = set_result result c.reporter;
        son = invalid_id;
        stop_son_when_yield_over = false;
        yield_to = 0;
      },
    )
    else (invalid_id, record c { yield_to = 0 })

-- `son_finished()`
unfoldable pub son_finished : Chroutine → Chroutine
unfolding set_result
son_finished c = record c { reporter = set_result result_done c.reporter; yield_to = 0 }

-- The move constructor: the new object, and what is left of the old one.
unfoldable pub move : Chroutine → Chroutine × Chroutine
move other = (record other { moved = false }, record other { ctx = none })

unfoldable pub set_moved : Chroutine → Chroutine
set_moved c = record c { moved = true }

-- `has_moved() || wait(now) > 0` is false: the scheduler may resume it.
abbrev pub is_due : ℕ → Chroutine → Bool
is_due now c = not c.moved && c.yield_wait == 0 && (c.yield_to == 0 || leb c.yield_to now)
