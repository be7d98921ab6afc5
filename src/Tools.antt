-- ===== src/Tools.antt =====
-- util/tools.hpp and .cpp: `thread_ms_sleep`. What `nanosleep` returns is given.
pub mod Sleep
mod Tests
use chroutine.Prelude.{ℕ, ◌+◌, ◌*◌, ◌/◌, ◌%◌, ◌^◌, List, [], ◌∷◌}

-- `struct timespec`, and the nanoseconds that it stands for.
pub record Timespec : Type 0 where
  pub tv_sec : ℕ
  pub tv_nsec : ℕ

abbrev pub nanoseconds : Timespec → ℕ
nanoseconds ts = ts.tv_sec * 1000000000 + ts.tv_nsec

-- One return of `nanosleep(&ts, &ts)`: 0, `EINTR` with the rest in `ts`, or any other error.
pub data Nap : Type 0 where
  whole : Nap
  interrupted : Timespec → Nap
  refused : Nap

-- The products are those of a uint32_t.
pub timespec_of : ℕ → Timespec
timespec_of ms = record { tv_sec = ms / 1000; tv_nsec = ms % 1000 * 1000000 % 2 ^ 32 }

-- The loop of `thread_ms_sleep`: the arguments of `nanosleep`, in order. Where no return is given any
-- more, the thread still sleeps.
pub sleep_loop : List Nap → Timespec → List Timespec
sleep_loop [] ts = ts ∷ []
sleep_loop (whole ∷ naps) ts = ts ∷ []
sleep_loop (refused ∷ naps) ts = ts ∷ []
sleep_loop (interrupted left ∷ naps) ts = ts ∷ sleep_loop naps left

pub thread_ms_sleep : List Nap → ℕ → List Timespec
thread_ms_sleep naps ms = sleep_loop naps (timespec_of ms)
