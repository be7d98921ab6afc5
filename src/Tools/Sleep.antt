-- ===== src/Tools/Sleep.antt =====
-- How long `thread_ms_sleep` of util/tools.cpp sleeps.
use chroutine.Prelude.{
  ℕ, ◌+◌, ◌-◌, ◌*◌, ◌^◌, ◌≤◌, ◌<◌, ◌≡◌, refl, ◌∙◌, Bool, true, List, [], ◌∷◌, ltb, lt→ltb, arith,
}
use chroutine.Prelude.All.{all}
use chroutine.Tools.{
  Timespec, nanoseconds, Nap, whole, interrupted, refused, timespec_of, sleep_loop, thread_ms_sleep,
}

-- The nanoseconds that pass in the calls: an interrupted one leaves its rest.
abbrev pub slept : List Nap → List Timespec → ℕ
slept [] calls = 0
slept (nap ∷ naps) [] = 0
slept (whole ∷ naps) (ts ∷ calls) = nanoseconds ts
slept (refused ∷ naps) (ts ∷ calls) = 0
slept (interrupted left ∷ naps) (ts ∷ calls) = nanoseconds ts - nanoseconds left + slept naps calls

-- An argument that `nanosleep` takes.
abbrev pub is_proper : Timespec → Bool
is_proper ts = ltb ts.tv_nsec 1000000000

-- What `nanosleep` promises of its returns: a rest is no more than was asked for; the last one is 0.
abbrev pub Promised : List Nap → Timespec → Type 0
Promised [] ts = ⊥
Promised (whole ∷ naps) ts = Unit
Promised (refused ∷ naps) ts = ⊥
Promised (interrupted left ∷ naps) ts =
    (nanoseconds left ≤ nanoseconds ts) × (is_proper left ≡ true) × Promised naps left

sleep_loop_lem :
    (naps : List Nap) (ts : Timespec)
    → is_proper ts ≡ true
    → Promised naps ts
    → (all is_proper (sleep_loop naps ts) ≡ true)
      × (slept naps (sleep_loop naps ts) ≡ nanoseconds ts)
unfolding sleep_loop
sleep_loop_lem [] ts proper promised = elim promised [ ]
sleep_loop_lem (whole ∷ naps) ts proper promised = (ground (arith, proper), refl)
sleep_loop_lem (refused ∷ naps) ts proper promised = elim promised [ ]
sleep_loop_lem (interrupted left ∷ naps) ts proper (less, left_proper, promised) =
    let (others, time) = sleep_loop_lem naps left left_proper promised in
    (ground (arith, proper, others), omega (arith, time, less))

-- However often it is interrupted: `thread_ms_sleep` of a uint32_t calls `nanosleep` with less than a
-- second of nanoseconds each time, and has slept as many milliseconds as were asked for when it returns.
pub thread_ms_sleep_lem :
    (naps : List Nap) (ms : ℕ)
    → ms < 2 ^ 32
    → Promised naps (timespec_of ms)
    → (all is_proper (thread_ms_sleep naps ms) ≡ true)
      × (slept naps (thread_ms_sleep naps ms) ≡ ms * 1000000)
unfolding thread_ms_sleep timespec_of
thread_ms_sleep_lem naps ms fits promised =
    let (proper, time) = sleep_loop_lem naps (timespec_of ms) (lt→ltb _ _ (omega arith)) promised in
    (proper, time ∙ omega arith)
