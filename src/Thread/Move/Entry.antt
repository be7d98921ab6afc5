-- ===== src/Thread/Move/Entry.antt =====
-- What the end of `entry` of engin/chroutine.cpp does for a chroutine that has been moved.
use chroutine.Prelude.{
  ℕ, ◌≡◌, ◌≢◌, refl, sym, ap, ◌∙◌, true, false, some, ◌==◌, arith, ==_iff, inl, inr, Bool-cases,
}
use chroutine.Chroutine.{Chroutine, Context, invalid_id, move}
use chroutine.Scheduler.{pick_run_chroutine}
use chroutine.Scheduler.Idle.{running-finish, pick_run_chroutine-busy}
use chroutine.Scheduler.Keeps.{Keeps-refl, finish-Keeps}
use chroutine.Thread.{Thread}
use chroutine.Thread.Keeps.{KeepsThread}
use chroutine.Thread.Move.{set_link, relink, entered_with, entry_end}

entry_end-own :
    (a : ℕ) (c : Chroutine) (threads : ℕ → Thread)
    → entered_with a c.ctx ≡ true
    → (entry_end c threads a).schedule.running_id ≡ invalid_id
unfolding entry_end
entry_end-own a c threads own = rw own (running-finish c (threads a).schedule)

entry_end-elsewhere :
    (a : ℕ) (c : Chroutine) (threads : ℕ → Thread)
    → entered_with a c.ctx ≡ false
    → entry_end c threads a ≡ threads a
unfolding entry_end
entry_end-elsewhere a c threads other = rw other refl

-- A moved chroutine keeps the thread that its context was made on as the argument of `entry`. When
-- its function ends on another thread, that thread is not changed, so it has the ended chroutine as
-- the running one, and `pick_run_chroutine` returns 1 there at any time and switches to nobody. The
-- thread of the argument has no running chroutine then, whatever it was running.
pub entry_end-moved :
    (now a : ℕ) (c : Chroutine) (x : Context) (threads : ℕ → Thread)
    → c.ctx ≡ some x
    → x.entry_arg ≢ a
    → (threads a).schedule.running_id ≡ c.me
    → c.me ≢ invalid_id
    → let ended = relink a (move c).0 in
      (entry_end ended threads a ≡ threads a)
      × (pick_run_chroutine now (entry_end ended threads a).schedule
          ≡ (1, false, (threads a).schedule))
      × ((entry_end ended threads x.entry_arg).schedule.running_id ≡ invalid_id)
unfolding relink set_link move entered_with
entry_end-moved now a c x threads ctx elsewhere runs real =
    let ended = relink a (move c).0 in
    let kept : (i : ℕ) → entered_with i ended.ctx ≡ (x.entry_arg == i) =
      λ i. ap (λ o. entered_with i (set_link a o)) ctx in
    let same = entry_end-elsewhere a ended threads (kept a ∙ ground arith) in
    (
      same,
      rw same (pick_run_chroutine-busy now (threads a).schedule (λ e. real (sym runs ∙ e))),
      entry_end-own x.entry_arg ended threads
          (kept x.entry_arg ∙ (==_iff x.entry_arg x.entry_arg).1 refl),
    )

-- The end of `entry` brings no chroutine into any thread.
pub entry_end-KeepsThread :
    (p_c : Chroutine) (threads : ℕ → Thread) (a : ℕ)
    → KeepsThread (threads a) (entry_end p_c threads a)
unfolding entry_end
entry_end-KeepsThread p_c threads a = elim (Bool-cases (entered_with a p_c.ctx)) [
  | inl own ↦ simp own (refl, finish-Keeps p_c (threads a).schedule)
  | inr other ↦ simp other (refl, Keeps-refl (threads a).schedule)
]
