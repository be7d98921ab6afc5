-- ===== src/Timer/Tests.antt =====
-- A timer of 20 milliseconds, and the theorem applied there.
use chroutine.Prelude.{ℕ, ◌≡◌, ◌≢◌, refl, true, false, none, some, [], ◌∷◌, arith}
use chroutine.Channel.{Caller, Channel, read, refill, readable}
use chroutine.Selecter.{stuck, select_once, select_from, after_read, add_case, insert_case}
use chroutine.Timer.{Timer, start, tick, stop, is_stopped}
use chroutine.Timer.Stopping.{going, halted, stop_lem}

abbrev self : Caller
self = record { thread_id = 1; chroutine_id = 3 }

abbrev timer : Timer
timer = record {
  running = false;
  interval_ms = 20;
  cb = some 44;
  selecter = record { default = none; cases = [] };
  trigger_chroutine_id = 12;
  trigger = 80;
  data_ptr = 81;
  once = false;
}

-- Every channel has one element.
abbrev chans : ℕ → Channel ℕ
chans k = record {
  w_index = 0;
  r_index = 0;
  max_size = 1;
  data_array = λ i. 1;
  unread = 1;
  waiting_write_que = [];
  waiting_read_que = [];
  locked = false;
}

pass_returns : (select_once self (going true 6 9 timer).selecter chans).selected ≢ stuck
unfolding select_once select_from after_read add_case insert_case read refill readable
pass_returns e = absurd (ground (arith, e))

stop_lem_example :
    let g = going true 6 9 timer in
    let ended = (tick self (chans 80) (halted g)).1 in
    ((start true 6 9 timer).1 ≡ g)
    × (stop self chans g ≡ some (select_once self g.selecter chans, 6 ∷ [], halted g))
    × ((halted g).selecter.cases ≡ [])
    × (is_stopped (halted g) ≡ false)
    × ((tick self (chans 80) (halted g)).0 ≡ none)
    × (is_stopped ended ≡ true)
    × ((start true 6 9 ended).0 ≡ true)
stop_lem_example =
    stop_lem self true 6 9 timer (record { idle = refl; callback = (44, refl); interval = refl })
      chans refl refl refl refl pass_returns
