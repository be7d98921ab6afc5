-- ===== src/Chroutine/Laws.antt =====
-- When a chroutine of engin/chroutine.cpp is due, and what ends its wait.
use chroutine.Prelude.{
  ◌⊎◌, ◌≢◌, length, if◌then◌else◌, List, [], ◌∷◌, ℕ, ◌+◌, ◌-◌, ◌≤◌, ◌<◌, ◌≡◌, true, some, arith,
  ltb,
}
use chroutine.Chroutine.{
  Chroutine, invalid_id, wait, yield_over, son_finished, set_result, SonResult, result_done,
  result_timeout,
}

-- `wait` returns 0 exactly when the frames are used up and the time has come, and then changes
-- nothing; else it counts one frame down, or leaves a chroutine that waits for a time alone.
pub wait_lem :
    (now : ℕ) (c : Chroutine)
    → let (w, c') = wait now c in
      ((w ≡ 0) × (c' ≡ c) × (c.yield_wait ≡ 0) × (c.yield_to ≤ now))
      ⊎ ((0 < w) × (0 < c.yield_wait) × (c' ≡ record c { yield_wait = c.yield_wait - 1 }))
      ⊎ ((w ≡ 1) × (c' ≡ c) × (c.yield_wait ≡ 0) × (now < c.yield_to))
unfolding wait
wait_lem now c = ground arith

-- The chroutine after calls of `wait` at the given times, and how many of them said to wait.
pub waits : List ℕ → Chroutine → Chroutine
waits [] c = c
waits (now ∷ nows) c = waits nows (wait now c).1

pub refusals : List ℕ → Chroutine → ℕ
refusals [] c = 0
refusals (now ∷ nows) c = let (w, c') = wait now c in (if ltb 0 w then 1 else 0) + refusals nows c'

-- A chroutine that yields `n` frames is passed over by the next `n` calls of `wait`, at whatever
-- times; nothing else of it changes, and after them only its time can hold it back.
pub waits_lem :
    (nows : List ℕ) (c : Chroutine)
    → c.yield_wait ≡ length nows
    → (refusals nows c ≡ length nows) × (waits nows c ≡ record c { yield_wait = 0 })
unfolding waits refusals wait
waits_lem [] c h = ground arith
waits_lem (now ∷ nows) c h =
    ground (arith, waits_lem nows (record c { yield_wait = c.yield_wait - 1 }))

-- At the end of a wait for a son: a son that is still there is named for removal, and the father's
-- reporter says why; without such a wait only the time is reset. The frames stay.
pub yield_over_lem :
    (r : SonResult) (c : Chroutine)
    → let (timeout_son, c') = yield_over r c in
      ((c.yield_to ≢ 0)
        × (c.stop_son_when_yield_over ≡ true)
        × (timeout_son ≡ c.son)
        × (c'.reporter ≡ set_result r c.reporter)
        × (c'.son ≡ invalid_id)
        × (c'.yield_to ≡ 0)
        × (c'.yield_wait ≡ c.yield_wait))
      ⊎ ((timeout_son ≡ invalid_id) × (c' ≡ record c { yield_to = 0 }))
unfolding yield_over
yield_over_lem r c = ground arith

-- A son that ends within the time: its father is due at once, with the result `result_done`, which
-- the end of the wait does not change, and nobody is removed.
pub son_finished-yield_over :
    (now : ℕ) (c : Chroutine) (old : SonResult)
    → c.reporter ≡ some old
    → c.yield_wait ≡ 0
    → let c' = son_finished c in
      (wait now c' ≡ (0, c'))
      × ((yield_over result_timeout c').0 ≡ invalid_id)
      × ((yield_over result_timeout c').1.reporter ≡ some result_done)
unfolding son_finished wait yield_over
son_finished-yield_over now c old h w = ground arith
