-- ===== src/Thread/Laws.antt =====
-- The functions of engin/chroutine.cpp that create chroutines and keep the selected objects.
use chroutine.Prelude.{
  ℕ, ◌≡◌, refl, ◌⊎◌, inl, inr, true, false, Option, none, some, [], ◌∷◌, ◌++◌, Bool-cases,
}
use chroutine.Chroutine.{invalid_id}
use chroutine.Schedule.{sched}
use chroutine.Schedule.Tables.{sched-push_back}
use chroutine.Scheduler
use chroutine.Thread.{Thread, is_closed, gen_chroutine_id, create_chroutine, stop}

-- `create_chroutine` refuses a null function and a thread that is closed, and then changes nothing,
-- not even the counter. Else the id is the next one, and the list has the new chroutine at its end:
-- ready, with no wait, and with an `entry` that is given this thread.
pub create_chroutine_lem :
    (counter : ℕ) (func : Option ℕ) (arg : ℕ) (t : Thread)
    → let r = create_chroutine counter func arg t in
      (((func ≡ none) ⊎ (is_closed t.state ≡ true))
        × (r ≡ record { id = invalid_id; counter = counter; thread = t }))
      ⊎ ((f : ℕ) × (func ≡ some f)
          × (is_closed t.state ≡ false)
          × (r.id ≡ gen_chroutine_id counter)
          × (r.counter ≡ r.id)
          × (sched r.thread.schedule
              ≡ sched t.schedule ++ Scheduler.fresh t.address r.id f arg ∷ [])
          × (r.thread ≡ record t { schedule = r.thread.schedule }))
unfolding create_chroutine Scheduler.create_chroutine
create_chroutine_lem counter none arg t = inl (inl refl, refl)
create_chroutine_lem counter (some f) arg t = elim (Bool-cases (is_closed t.state)) [
  | inl closed ↦ rw closed (inl (inr refl, refl))
  | inr open_ ↦ rw open_ (
      inr (
        f,
        refl,
        refl,
        refl,
        refl,
        sched-push_back (Scheduler.fresh t.address (gen_chroutine_id counter) f arg) t.schedule,
        refl,
      ))
]

pub need_stop-stop : (t : Thread) → (stop t).need_stop ≡ true
unfolding stop
need_stop-stop t = refl
