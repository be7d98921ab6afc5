-- ===== src/Thread/Load.antt =====
-- engin/chroutine.hpp: `load_t`, the share of scheduler rounds that had something to do.
pub mod Window
use chroutine.Prelude.{ℕ, ◌+◌, ◌-◌, Option, none, some, ltb, ◌==◌, if◌then◌else◌}

-- `COUNT_CIRCAL`
abbrev pub count_circal : ℕ
count_circal = 1000

-- `load_t`; `last` is -1 until the first window ends. The code's numbers are of 32 bits, and a `select`
-- may return a negative one; here they are natural numbers.
pub record Load : Type 0 where
  pub last : Option ℕ
  pub working : ℕ
  pub counting_left : ℕ

pub initial : Load
initial = record { last = none; working = 0; counting_left = count_circal }

close_window : Load → Load
close_window l =
    if ltb l.counting_left 1
    then record { last = some l.working; counting_left = count_circal; working = 0 }
    else l

-- `update(worked)`. A subtraction below zero stops at zero here, and the next test asks for less
-- than one.
pub update : ℕ → Load → Load
unfolding close_window
update worked l = close_window (record l {
  working = l.working + worked;
  counting_left = if worked == 0 then l.counting_left - 100 else l.counting_left - 1;
})

-- `load()`, in thousandths.
pub load : Load → ℕ
load l = elim l.last [ none ↦ 0 | some worked ↦ worked ]
