-- ===== src/Timer.antt =====
-- util/timer.hpp and .cpp: `chr_timer_t`. Its chroutines are cut where they sleep: `tick` is what the
-- trigger chroutine does behind a sleep, and `stop` is cut in front of the loop in which it waits.
pub mod Stopping
mod Tests
use chroutine.Prelude.{
  ℕ, Bool, true, false, Option, none, some, List, [], ◌∷◌, ◌++◌, ◌==◌, if◌then◌else◌,
}
use chroutine.Chroutine.{invalid_id}
use chroutine.Channel.{Caller, Channel, Outcome, write}
use chroutine.Selecter.{
  Selecter, Selected, none_called, called, stuck, Selection, select_once, add_case, del_case,
}

-- `trigger` and `data_ptr` are the addresses of the channel and of `m_d`; `cb` is none for the null
-- function.
pub record Timer : Type 0 where
  pub running : Bool
  pub interval_ms : ℕ
  pub cb : Option ℕ
  pub selecter : Selecter
  pub trigger_chroutine_id : ℕ
  pub trigger : ℕ
  pub data_ptr : ℕ
  pub once : Bool

-- The constructor; the callback and the interval are not looked at.
pub create : ℕ → Option ℕ → ℕ → ℕ → Timer
create interval_ms cb trigger data_ptr = record {
  running = false;
  interval_ms = interval_ms;
  cb = cb;
  selecter = record { default = none; cases = [] };
  trigger_chroutine_id = invalid_id;
  trigger = trigger;
  data_ptr = data_ptr;
  once = false;
}

-- `start(once)`, with the id of the trigger chroutine that it creates and the number of the callback of
-- its case.
pub start : Bool → ℕ → ℕ → Timer → Bool × Timer
start once id on_trigger t =
    let started = record t {
      running = true;
      once = once;
      trigger_chroutine_id = id;
      selecter = (add_case t.trigger t.data_ptr on_trigger t.selecter).1;
    } in
    if t.running then (false, t) else elim t.cb [
      | none ↦ (false, t)
      | some f ↦ if t.interval_ms == 0 then (false, t) else (true, started)
    ]

-- A turn of the trigger chroutine behind its sleep: the write, or its end.
pub tick : Caller → Channel ℕ → Timer → Option (Outcome ℕ) × Timer
tick self c t =
    if t.running
    then (some (write self 1 false c), t)
    else (none, record t { trigger_chroutine_id = invalid_id })

-- The callback of the case: whether it creates the chroutine that calls `m_cb`. That chroutine tells
-- which function it calls, and whether it stops the timer then.
pub on_trigger : Timer → Bool
on_trigger t = t.running

pub fire : Timer → Option ℕ × Bool
fire t = (t.cb, t.once)

-- `select(wait_ms)` over the channels: the result, and what `select_once` did.
pub select : Caller → (ℕ → Channel ℕ) → Timer → ℕ × Option (Selection ℕ)
select self chans t =
    let s = select_once self t.selecter chans in
    if t.running
    then (elim s.selected [ none_called ↦ 0 | called f ↦ 1 | stuck ↦ 0 ], some s)
    else (0, none)

-- `stop()` up to its loop: the pass over the channels, the chroutine that it wakes, and the timer. It
-- does nothing if the timer does not run. A pass that never returns is the last thing that it does.
pub behind_pass : Selected → Timer → List ℕ × Timer
behind_pass stuck t = ([], t)
behind_pass _ t = (
  if t.trigger_chroutine_id == invalid_id then [] else t.trigger_chroutine_id ∷ [],
  record t { selecter = del_case t.trigger t.selecter },
)

pub stop : Caller → (ℕ → Channel ℕ) → Timer → Option (Selection ℕ × List ℕ × Timer)
stop self chans t =
    let s = select_once self t.selecter chans in
    if t.running
    then (let (woken, t') = behind_pass s.selected (record t { running = false }) in
        some (s, woken, t'))
    else none

-- The condition on which that loop ends.
pub is_stopped : Timer → Bool
is_stopped t = t.trigger_chroutine_id == invalid_id

-- `abandon()` up to the same place, where `unregister_from_engin` follows.
pub abandon : Caller → (ℕ → Channel ℕ) → Timer → Option (Selection ℕ × List ℕ × Timer)
abandon self chans t = if t.running then stop self chans t else none
