-- ===== src/Scheduler/Idle.antt =====
-- When a thread of engin/chroutine.cpp has a running chroutine, and when it has none.
use chroutine.Prelude.{ℕ, ◌≡◌, ◌≢◌, refl, inl, inr, false, ◌==◌, Bool-cases, Option-cases, ==_iff}
use chroutine.Chroutine.{Chroutine, invalid_id, son_finished}
use chroutine.Schedule.{Schedule, get_chroutine, remove_chroutine}
use chroutine.Schedule.Tables.{running-modify_sched}
use chroutine.Scheduler.{notify, finish, pick_run_chroutine}

running-notify : (father : ℕ) (s : Schedule) → (notify father s).running_id ≡ s.running_id
unfolding notify
running-notify father s = elim (Bool-cases (father == invalid_id)) [
  | inl nobody ↦ rw nobody refl
  | inr somebody ↦ rw somebody (elim (Option-cases (get_chroutine father s)) [
    | inl gone ↦ rw gone refl
    | inr (c, there) ↦ rw there (running-modify_sched father son_finished s)
  ])
]

pub running-finish : (c : Chroutine) (s : Schedule) → (finish c s).running_id ≡ invalid_id
unfolding finish
running-finish c s =
    running-notify c.father (record (remove_chroutine c.me s) { running_id = invalid_id })

pub pick_run_chroutine-busy :
    (now : ℕ) (s : Schedule) → s.running_id ≢ invalid_id → pick_run_chroutine now s ≡ (1, false, s)
unfolding pick_run_chroutine
pick_run_chroutine-busy now s ne = elim (Bool-cases (s.running_id == invalid_id)) [
  | inl idle ↦ absurd (ne ((==_iff s.running_id invalid_id).0 idle))
  | inr busy ↦ rw busy refl
]
