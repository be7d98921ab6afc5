-- ===== src/Chroutine/Tests.antt =====
-- One chroutine through its waits at concrete times, and the theorems applied there.
use chroutine.Prelude.{◌≡◌, refl, some, false, true}
use chroutine.Chroutine.{
  Chroutine, suspend, result_ready, result_timeout, invalid_id, wait, yield_over,
}

-- It yields for two frames.
abbrev yielding : Chroutine
yielding = record {
  ctx = some (record { entry_arg = 0; link = 0 });
  func = 70;
  arg = 0;
  state = suspend;
  yield_wait = 2;
  yield_to = 0;
  me = 4;
  father = invalid_id;
  son = 9;
  reporter = some result_ready;
  stop_son_when_yield_over = false;
  moved = false;
}

-- It waits for a son until the time 50.
abbrev waiting : Chroutine
waiting = record yielding { yield_wait = 0; yield_to = 50; stop_son_when_yield_over = true }

until_fifty : ((wait 49 waiting).0 ≡ 1) × ((wait 50 waiting).0 ≡ 0) × ((wait 90 waiting).0 ≡ 0)
unfolding wait
until_fifty = (refl, refl, refl)

stops_son : (yield_over result_timeout waiting).0 ≡ 9
unfolding yield_over
stops_son = refl
