-- ===== src/Chutex.antt =====
-- util/chutex.hpp and .cpp: `chutex_t`, a spin lock for chroutines, and `chutex_guard_t`, which holds
-- it for a scope. The state is the flag.
pub mod Exclusion
mod Tests
use chroutine.Prelude.{ℕ, Bool, true, false, not, if◌then◌else◌, ◌==◌}

-- `compare_exchange_strong(expected, true)` with `expected` false: whether it succeeds, and the flag.
pub compare_exchange : Bool → Bool × Bool
compare_exchange flag = (not flag, true)

-- `try_lock()`
pub try_lock : Bool → Bool × Bool
unfolding compare_exchange
try_lock flag = compare_exchange flag

-- One turn of the loop of `lock()`. Its exchange is the weak one, which may also fail, `spurious`, on a
-- free flag; the result tells if the loop ends, and else the chroutine yields.
pub lock_turn : Bool → Bool → Bool × Bool
unfolding compare_exchange
lock_turn spurious flag = if spurious then (false, flag) else compare_exchange flag

-- `unlock()`
pub unlock : Bool → Bool
unlock flag = false
