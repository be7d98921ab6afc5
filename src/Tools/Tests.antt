-- ===== src/Tools/Tests.antt =====
-- A sleep of 1500 ms that is interrupted once, after 600 ms, and the theorem applied there.
use chroutine.Prelude.{◌≡◌, refl, true, List, [], ◌∷◌, arith}
use chroutine.Prelude.All.{all}
use chroutine.Tools.{Nap, whole, interrupted, timespec_of, thread_ms_sleep}
use chroutine.Tools.Sleep.{is_proper, slept, thread_ms_sleep_lem}

abbrev naps : List Nap
naps = interrupted (record { tv_sec = 0; tv_nsec = 900000000 }) ∷ whole ∷ []

thread_ms_sleep_lem_example :
    (all is_proper (thread_ms_sleep naps 1500) ≡ true)
    × (slept naps (thread_ms_sleep naps 1500) ≡ 1500000000)
unfolding timespec_of
thread_ms_sleep_lem_example = thread_ms_sleep_lem naps 1500 (omega arith) (omega arith, refl, tt)
