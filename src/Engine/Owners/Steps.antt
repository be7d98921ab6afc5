-- ===== src/Engine/Owners/Steps.antt =====
-- engin/engine.cpp over time: whatever the threads do, in whatever order, each chroutine has one owner.
use chroutine.Prelude.{
  ℕ, ◌+◌, ◌-◌, ◌%◌, length, get_or, ltb, if◌then◌else◌, ◌^◌, ◌≡◌, refl, sym, ap, subst, inl, inr,
  Bool, true, false, Option, List, ◌==◌, arith, Option-cases,
}
use chroutine.Prelude.Int.{ℤ}
use chroutine.Prelude.Ids.{contains}
use chroutine.Chroutine.{Chroutine, SonResult}
use chroutine.Schedule.{sched, empty}
use chroutine.Schedule.Tables.{ids, IsValid}
use chroutine.Schedule.Nodes.{empty-IsValid}
use chroutine.Scheduler
use chroutine.Scheduler.Keeps.{awake_chroutine-Keeps}
use chroutine.Thread.{Thread, ThreadType, Created, worker, main}
use chroutine.Thread
use chroutine.Thread.Move.{entry_end}
use chroutine.Thread.Move.Entry.{entry_end-KeepsThread}
use chroutine.Thread.Keeps.{
  KeepsThread, yield-KeepsThread, wait-KeepsThread, sleep-KeepsThread, pick-KeepsThread,
  end_round-KeepsThread, enter_loop-KeepsThread, leave_loop-KeepsThread, start-KeepsThread,
  new_thread-KeepsThread,
}
use chroutine.Engine.{
  Engine, set_object, get_thread_by_id, on_current, create_chroutine,
  create_chroutine_in_mainthread, create_son_chroutine, yield, wait, sleep, awake_chroutine,
  on_thread_ready, pool_assign, launch, end_init,
}
use chroutine.Engine.Blocked.{check_threads}
use chroutine.Engine.Owners.{IsOwned, HasRoom, ids_at, put-Owned, all-Owned}
use chroutine.Engine.Owners.Checking.{check_threads-Owned}
use chroutine.Engine.Owners.Creating.{
  create_chroutine-IsOwned, create_main-IsOwned, create_son_chroutine-IsOwned,
}

-- A step of the engine: a call by the user, a round of a thread's loop in its parts, the end of a
-- chroutine, or a check of the main thread. Times and results are whatever they are.
pub data Step (e : Engine) : Engine → Type 0 where
  creates : (func : Option ℕ) (arg : ℕ) → HasRoom e → Step e (create_chroutine func arg e).1
  creates_main :
      (func : Option ℕ) (arg : ℕ) → HasRoom e → Step e (create_chroutine_in_mainthread func arg e).1
  creates_son :
      (self : ℕ) (func : Option ℕ) (result : SonResult) (arg timeout_ms now : ℕ)
      → HasRoom e
      → Step e (create_son_chroutine self func result arg timeout_ms now e).1
  yields : (self : ℕ) (tick : ℤ) → Step e (yield self tick e).1
  waits : (self : ℕ) (ms : ℤ) (now : ℕ) → Step e (wait self ms now e).1
  sleeps : (self : ℕ) (ms : ℤ) (now : ℕ) → Step e (sleep self ms now e).1
  awakes : (thread_id id : ℕ) → Step e (awake_chroutine thread_id id e).1
  launches : (address : ℕ) → Step e (launch address e)
  ends_init : (address : ℕ) → Step e (end_init address e)
  enters : (a id : ℕ) → Step e (set_object a (Thread.enter_loop id (e.objects a)) e)
  readies : (creating_index id : ℕ) → Step e (on_thread_ready creating_index id e)
  picks : (a now entry : ℕ) → Step e (set_object a (Thread.pick now entry (e.objects a)).2 e)
  ends_round :
      (a processed : ℕ) (switched : Bool)
      → Step e (set_object a (Thread.end_round processed switched (e.objects a)).1 e)
  leaves : (a : ℕ) → Step e (set_object a (Thread.leave_loop (e.objects a)) e)
  ends : (p_c : Chroutine) → Step e (record e { objects = entry_end p_c e.objects })
  checks : (now : ℕ) → Step e (check_threads now e)

pub data Reach (e : Engine) : Engine → Type 0 where
  here : Reach e e
  next : {f g : Engine} → Reach e f → Step f g → Reach e g

-- What happens on the thread that an id names, if there is one.
on_thread-IsOwned :
    (e : Engine) (a : ℕ) (t : Thread)
    → IsOwned e
    → KeepsThread (e.objects a) t
    → IsOwned (set_object a t e)
on_thread-IsOwned e a t o k = put-Owned e.objects a t e.counter o k

on_current-IsOwned :
    (self : ℕ) (f : Thread → Bool × Thread) (e : Engine)
    → ((t : Thread) → KeepsThread t (f t).1)
    → IsOwned e
    → IsOwned (on_current self f e).1
unfolding on_current
on_current-IsOwned self f e k o = elim (Option-cases (get_thread_by_id self e)) [
  | inl no_thread ↦ rw (no_thread, on_current) o
  | inr (a, there) ↦
      rw (there, on_current) (on_thread-IsOwned e a (f (e.objects a)).1 o (k (e.objects a)))
]

yield-IsOwned : (self : ℕ) (tick : ℤ) (e : Engine) → IsOwned e → IsOwned (yield self tick e).1
unfolding yield
yield-IsOwned self tick e =
    on_current-IsOwned self (λ t. Thread.yield tick t) e (λ t. yield-KeepsThread tick t)

wait-IsOwned :
    (self : ℕ) (ms : ℤ) (now : ℕ) (e : Engine) → IsOwned e → IsOwned (wait self ms now e).1
unfolding wait
wait-IsOwned self ms now e =
    on_current-IsOwned self (λ t. Thread.wait ms now t) e (λ t. wait-KeepsThread ms now t)

sleep-IsOwned :
    (self : ℕ) (ms : ℤ) (now : ℕ) (e : Engine) → IsOwned e → IsOwned (sleep self ms now e).1
unfolding sleep
sleep-IsOwned self ms now e =
    on_current-IsOwned self (λ t. Thread.sleep ms now t) e (λ t. sleep-KeepsThread ms now t)

awake_chroutine-IsOwned :
    (thread_id id : ℕ) (e : Engine) → IsOwned e → IsOwned (awake_chroutine thread_id id e).1
unfolding awake_chroutine
awake_chroutine-IsOwned thread_id id e o = elim (Option-cases (get_thread_by_id thread_id e)) [
  | inl no_thread ↦ rw (no_thread, awake_chroutine) o
  | inr (a, there) ↦
      let t = record (e.objects a) {
        schedule = (Scheduler.awake_chroutine id (e.objects a).schedule).1;
      } in
      rw (there, awake_chroutine)
        (on_thread-IsOwned e a t o (refl, awake_chroutine-Keeps id (e.objects a).schedule))
]

on_thread_ready-IsOwned :
    (creating_index id : ℕ) (e : Engine) → IsOwned e → IsOwned (on_thread_ready creating_index id e)
unfolding on_thread_ready
on_thread_ready-IsOwned creating_index id e o =
    kept (ltb ((length e.creating + (2 ^ 64 - 1)) % 2 ^ 64) creating_index)
  where
    pool : List (ℕ × ℕ)
    pool = pool_assign id (get_or e.creating creating_index 0) e.pool

    kept :
        (b : Bool)
        → IsOwned (
            if b then e else record e {
              pool = pool;
              init_over = if length pool == length e.creating then true else e.init_over;
            })
    kept true = o
    kept false = o

launch-IsOwned : (address : ℕ) (e : Engine) → IsOwned e → IsOwned (launch address e)
unfolding launch
launch-IsOwned address e o =
    on_thread-IsOwned e address
      (Thread.start (length e.creating) (Thread.new_thread address worker)) o
      (start-KeepsThread (length e.creating) address worker (e.objects address) (o.home address))

end_init-IsOwned : (address : ℕ) (e : Engine) → IsOwned e → IsOwned (end_init address e)
unfolding end_init
end_init-IsOwned address e o =
    on_thread-IsOwned e address (Thread.new_thread address main) o
      (new_thread-KeepsThread address main (e.objects address) (o.home address))

pub Step-IsOwned : {e f : Engine} → Step e f → IsOwned e → IsOwned f
Step-IsOwned {e} (creates func arg room) o = create_chroutine-IsOwned func arg e o room
Step-IsOwned {e} (creates_main func arg room) o = create_main-IsOwned func arg e o room
Step-IsOwned {e} (creates_son self func result arg timeout_ms now room) o =
    create_son_chroutine-IsOwned self func result arg timeout_ms now e o room
Step-IsOwned {e} (yields self tick) o = yield-IsOwned self tick e o
Step-IsOwned {e} (waits self ms now) o = wait-IsOwned self ms now e o
Step-IsOwned {e} (sleeps self ms now) o = sleep-IsOwned self ms now e o
Step-IsOwned {e} (awakes thread_id id) o = awake_chroutine-IsOwned thread_id id e o
Step-IsOwned {e} (launches address) o = launch-IsOwned address e o
Step-IsOwned {e} (ends_init address) o = end_init-IsOwned address e o
Step-IsOwned {e} (enters a id) o =
    on_thread-IsOwned e a _ o (enter_loop-KeepsThread id (e.objects a))
Step-IsOwned {e} (readies creating_index id) o = on_thread_ready-IsOwned creating_index id e o
Step-IsOwned {e} (picks a now entry) o =
    on_thread-IsOwned e a _ o (pick-KeepsThread now entry (e.objects a))
Step-IsOwned {e} (ends_round a processed switched) o =
    on_thread-IsOwned e a _ o (end_round-KeepsThread processed switched (e.objects a))
Step-IsOwned {e} (leaves a) o = on_thread-IsOwned e a _ o (leave_loop-KeepsThread (e.objects a))
Step-IsOwned {e} (ends p_c) o =
    all-Owned e.objects (entry_end p_c e.objects) e.counter o (entry_end-KeepsThread p_c e.objects)
Step-IsOwned {e} (checks now) o = check_threads-Owned now e o

-- No id is given out yet, and the threads have empty tables and know their addresses.
abbrev pub IsBlank : Engine → Type 0
IsBlank e =
    (e.counter ≡ 0) × ((a : ℕ) → ((e.objects a).address ≡ a) × ((e.objects a).schedule ≡ empty))

blank-IsOwned : (e : Engine) → IsBlank e → IsOwned e
blank-IsOwned e (zero_given, blank) = record {
  counted = omega (arith, zero_given);
  home = λ a. (blank a).0;
  valid = λ a. subst IsValid (sym (blank a).1) empty-IsValid;
  known = λ a i h. absurd (none_there a i h);
  alone = λ a b i h h'. absurd (none_there a i h);
}
  where
    none_there : (a i : ℕ) → contains i (ids_at e.objects a) ≡ true → ⊥
    none_there a i h = ground (arith, ap (λ s. contains i (ids (sched s))) (blank a).1, h)

-- From threads without chroutines on, whatever the threads of the engine do, in whatever order, moves of
-- chroutines to other threads and ends of moved ones included, and as long as the ids do not run out:
-- every thread has its map and its list in step, a chroutine is in the tables of one thread only, and
-- its id is one that the counter has given out, and not `INVALID_ID`.
pub Reach-IsOwned : {e f : Engine} → IsBlank e → Reach e f → IsOwned f
Reach-IsOwned {e} blank here = blank-IsOwned e blank
Reach-IsOwned blank (next r s) = Step-IsOwned s (Reach-IsOwned blank r)
