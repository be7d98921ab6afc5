-- ===== src/Timer/Stopping.antt =====
-- What `stop` of util/timer.cpp leaves, and what a `start` in the middle of it does.
use chroutine.Prelude.{
  ℕ, ◌≡◌, ◌≢◌, refl, ap, ◌∙◌, Bool, true, false, Option, none, some, List, [], ◌∷◌, ◌==◌, ==_iff,
  if◌then◌else◌,
}
use chroutine.Chroutine.{invalid_id}
use chroutine.Channel.{Caller, Channel, write}
use chroutine.Selecter.{Selected, none_called, called, stuck, select_once, add_case, del_case}
use chroutine.Selecter.Cases.{del_case-add_case}
use chroutine.Timer.{Timer, behind_pass, start, tick, stop, is_stopped}

-- The timer when `start` returns true, and behind the first part of `stop`.
abbrev pub going : Bool → ℕ → ℕ → Timer → Timer
going once id callback t = record t {
  running = true;
  once = once;
  trigger_chroutine_id = id;
  selecter = (add_case t.trigger t.data_ptr callback t.selecter).1;
}

abbrev pub halted : Timer → Timer
halted t = record t { running = false; selecter = del_case t.trigger t.selecter }

-- A timer that does not run and has what a start needs.
pub record IsReady (t : Timer) : Type 0 where
  pub idle : t.running ≡ false
  pub callback : (f : ℕ) × (t.cb ≡ some f)
  pub interval : (t.interval_ms == 0) ≡ false

start-going :
    (once : Bool) (id callback : ℕ) (t : Timer)
    → IsReady t
    → start once id callback t ≡ (true, going once id callback t)
unfolding start
start-going once id callback t ready =
    ap (λ b. if b then (false, t) else guarded t.cb) ready.idle
    ∙ ap guarded ready.callback.1
    ∙ ap (λ b. if b then (false, t) else (true, going once id callback t)) ready.interval
  where
    guarded : Option ℕ → Bool × Timer
    guarded cb = elim cb [
      | none ↦ (false, t)
      | some f ↦ if t.interval_ms == 0 then (false, t) else (true, going once id callback t)
    ]

behind_pass-returns :
    (s : Selected) (t : Timer)
    → s ≢ stuck
    → (t.trigger_chroutine_id == invalid_id) ≡ false
    → behind_pass s t
      ≡ (t.trigger_chroutine_id ∷ [], record t { selecter = del_case t.trigger t.selecter })
unfolding behind_pass
behind_pass-returns stuck t returns real = absurd (returns refl)
behind_pass-returns none_called t returns real = rw real refl
behind_pass-returns (called f) t returns real = rw real refl

module _ (self : Caller) (once : Bool) (id callback : ℕ) (t : Timer) (ready : IsReady t)
    (chans : ℕ → Channel ℕ) (real : (id == invalid_id) ≡ false) where
  abbrev g : Timer
  g = going once id callback t

  halted-IsReady : IsReady (halted g)
  halted-IsReady = record { idle = refl; callback = ready.callback; interval = ready.interval }

  -- A timer that does not run, with a callback and an interval, an empty table and its channel, is started,
  -- with a valid id of its trigger chroutine, and then stopped:
  -- if the pass of `stop` over its channel returns, `stop` takes its case off and wakes its trigger chroutine, which then ends and writes nothing; with
  -- that the loop of `stop` ends, and the timer can be started again.
  pub stop_lem :
      (t.trigger == 0) ≡ false
      → (t.data_ptr == 0) ≡ false
      → t.selecter.cases ≡ []
      → (select_once self g.selecter chans).selected ≢ stuck
      → let ended = (tick self (chans t.trigger) (halted g)).1 in
        ((start once id callback t).1 ≡ g)
        × (stop self chans g ≡ some (select_once self g.selecter chans, id ∷ [], halted g))
        × ((halted g).selecter.cases ≡ [])
        × (is_stopped (halted g) ≡ false)
        × ((tick self (chans t.trigger) (halted g)).0 ≡ none)
        × (is_stopped ended ≡ true)
        × ((start once id callback ended).0 ≡ true)
  unfolding stop tick is_stopped
  stop_lem there cell empty returns = (
    ap (λ (r : Bool × Timer). r.1) (start-going once id callback t ready),
    ap (λ (r : List ℕ × Timer). some (select_once self g.selecter chans, r.0, r.1))
        (behind_pass-returns (select_once self g.selecter chans).selected
          (record g { running = false }) returns real),
    del_case-add_case t.trigger t.data_ptr callback t.selecter there cell empty,
    real,
    refl,
    (==_iff invalid_id invalid_id).1 refl,
    ap (λ (r : Bool × Timer). r.0)
        (start-going once id callback (record (halted g) { trigger_chroutine_id = invalid_id })
          (record { idle = refl; callback = ready.callback; interval = ready.interval })),
  )

  -- If the timer is started again while `stop` still waits, that start returns true, and the trigger
  -- chroutine that was to end goes on to write; the loop of `stop` does not end.
  pub start-while_stopping :
      (id' : ℕ)
      → (id' == invalid_id) ≡ false
      → let again = (start once id' callback (halted g)).1 in
        ((start once id' callback (halted g)).0 ≡ true)
        × ((tick self (chans t.trigger) again).0 ≡ some (write self 1 false (chans t.trigger)))
        × (is_stopped (tick self (chans t.trigger) again).1 ≡ false)
  unfolding tick is_stopped
  start-while_stopping id' real' =
      let e = start-going once id' callback (halted g) halted-IsReady in
      (
        ap (λ (r : Bool × Timer). r.0) e,
        ap (λ (r : Bool × Timer). (tick self (chans t.trigger) r.1).0) e,
        ap (λ (r : Bool × Timer). is_stopped (tick self (chans t.trigger) r.1).1) e ∙ real',
      )
