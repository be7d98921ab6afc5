-- ===== src/Scheduler/Hold.antt =====
-- `HOLD()` of engin/engine.hpp, by which a call on a channel blocks once it has let go of the channel,
-- and the wake-up that it waits for.
use chroutine.Prelude.{
  ℕ, ◌+◌, ◌≡◌, ◌≢◌, refl, ap, ◌∙◌, Bool, true, false, none, some, List, [], ◌∷◌, ◌==◌, arith, leb,
}
use mathlib.Core.Option
use chroutine.Prelude.Int.{pos}
use chroutine.Chroutine.{Chroutine, suspend, yield_over, result_done, invalid_id, is_due}
use chroutine.Schedule.{
  Schedule, sched, find, by_id, modify, modify_sched, get_chroutine, remove_chroutine,
}
use chroutine.Schedule.Tables.{map-modify_sched}
use chroutine.Scheduler.Waits.{awake_chroutine-found}
use chroutine.Schedule.Nodes.{sched-modify_sched}
use chroutine.Scheduler.{is_running, touch, suspend_current, wait_current, awake_chroutine}

-- `ENGIN.sleep(0xDC46C32800)`, thirty years of milliseconds, on the tables of the calling thread.
abbrev pub hold_ms : ℕ
hold_ms = 946080000000

pub hold : ℕ → Schedule → Bool × Schedule
hold now s = wait_current (pos hold_ms) false now s

by_id-modify :
    (id : ℕ) (f : Chroutine → Chroutine) (c : Chroutine) (cs : List Chroutine)
    → ((x : Chroutine) → (f x).me ≡ x.me)
    → by_id id cs ≡ some c
    → by_id id (modify id f cs) ≡ some (f c)
unfolding by_id modify
by_id-modify id f c [] h there = cc
by_id-modify id f c (x ∷ cs) h there = ground (arith, h x, by_id-modify id f c cs h)

get_chroutine-there :
    (id : ℕ) (c : Chroutine) (s : Schedule)
    → find id s.chroutines_map ≡ some true
    → by_id id (sched s) ≡ some c
    → get_chroutine id s ≡ some c
unfolding get_chroutine
get_chroutine-there id c s e in_list = rw (e, get_chroutine) in_list

there-get_chroutine :
    (id : ℕ) (c : Chroutine) (s : Schedule)
    → get_chroutine id s ≡ some c
    → (find id s.chroutines_map ≡ some true) × (by_id id (sched s) ≡ some c)
unfolding get_chroutine
there-get_chroutine id c s there = ground arith

-- What a write through the pointer of an id leaves at that id.
get_chroutine-modify_sched :
    (id : ℕ) (f : Chroutine → Chroutine) (c : Chroutine) (s : Schedule)
    → ((x : Chroutine) → (f x).me ≡ x.me)
    → get_chroutine id s ≡ some c
    → get_chroutine id (modify_sched id f s) ≡ some (f c)
get_chroutine-modify_sched id f c s h there =
    let (e, in_list) = there-get_chroutine id c s there in
    get_chroutine-there id (f c) (modify_sched id f s) (ap (find id) (map-modify_sched id f s) ∙ e)
      (ap (by_id id) (sched-modify_sched id f s) ∙ by_id-modify id f c (sched s) h in_list)

-- The change that `hold` makes, and the one that a wake-up makes.
abbrev pub held : ℕ → Chroutine → Chroutine
held now c = record c {
  state = suspend;
  yield_to = now + hold_ms;
  stop_son_when_yield_over = false;
}

abbrev pub woken : Chroutine → Chroutine
woken c = (yield_over result_done c).1

me-woken : (c : Chroutine) → (woken c).me ≡ c.me
unfolding yield_over
me-woken c = ground arith

hold-held :
    (now : ℕ) (c : Chroutine) (s : Schedule)
    → get_chroutine s.running_id s ≡ some c
    → is_running c.state ≡ true
    → s.running_id ≢ invalid_id
    → (hold now s).1 ≡ record (modify_sched s.running_id (held now) s) { running_id = invalid_id }
unfolding hold wait_current suspend_current touch
hold-held now c s there runs real =
    rw (real', suspend_current, ap (get_chroutine s.running_id) same ∙ there, runs)
      (ap (λ s'. record (modify_sched s.running_id (held now) s') { running_id = invalid_id }) same)
  where
    real' : (s.running_id == invalid_id) ≡ false
    real' = ground arith

    same : touch s.running_id s ≡ s
    same = rw ((there-get_chroutine s.running_id c s there).0, touch) refl

awake_chroutine-woken :
    (id : ℕ) (c : Chroutine) (s : Schedule)
    → get_chroutine id s ≡ some c
    → (yield_over result_done c).0 ≡ invalid_id
    → find invalid_id s.chroutines_map ≡ none
    → (awake_chroutine id s).1 ≡ modify_sched id woken s
unfolding yield_over remove_chroutine modify_sched
awake_chroutine-woken id c s there plain nobody =
    rw (awake_chroutine-found id c s there, plain) (nothing (modify_sched id woken s) nobody)
  where
    nothing :
        (s' : Schedule)
        → find invalid_id s'.chroutines_map ≡ none
        → remove_chroutine invalid_id s' ≡ s'
    nothing s' e = rw (e, remove_chroutine) refl

-- The node at an id does not depend on which chroutine runs.
get_chroutine-idle :
    (id : ℕ) (s : Schedule)
    → get_chroutine id (record s { running_id = invalid_id }) ≡ get_chroutine id s
unfolding get_chroutine
get_chroutine-idle id s = refl

-- The chroutine that blocks, after its wake-up and its hold in the order in which they come.
awake-hold :
    (now : ℕ) (c : Chroutine) (s : Schedule)
    → get_chroutine s.running_id s ≡ some c
    → is_running c.state ≡ true
    → s.running_id ≢ invalid_id
    → c.yield_to ≡ 0
    → find invalid_id s.chroutines_map ≡ none
    → get_chroutine s.running_id (awake_chroutine s.running_id (hold now s).1).1
      ≡ some (woken (held now c))
unfolding modify_sched yield_over
awake-hold now c s there runs real plain nobody =
    let r = s.running_id in
    let s' = record (modify_sched r (held now) s) { running_id = invalid_id } in
    let there' =
      get_chroutine-idle r (modify_sched r (held now) s)
      ∙ get_chroutine-modify_sched r (held now) c s (λ x. refl) there in
    rw
      (
        hold-held now c s there runs real,
        awake_chroutine-woken r (held now c) s' there' (ground arith) nobody,
      )
      (get_chroutine-modify_sched r woken (held now c) s' me-woken there')

hold-awake :
    (now : ℕ) (c : Chroutine) (s : Schedule)
    → get_chroutine s.running_id s ≡ some c
    → is_running c.state ≡ true
    → s.running_id ≢ invalid_id
    → c.yield_to ≡ 0
    → find invalid_id s.chroutines_map ≡ none
    → get_chroutine s.running_id (hold now (awake_chroutine s.running_id s).1).1
      ≡ some (held now (woken c))
unfolding modify_sched yield_over
hold-awake now c s there runs real plain nobody =
    let r = s.running_id in
    let s' = modify_sched r woken s in
    let there' = get_chroutine-modify_sched r woken c s me-woken there in
    rw
      (
        awake_chroutine-woken r c s there (ground (arith, plain)) nobody,
        hold-held now (woken c) s' there' (ground (arith, runs)) real,
        get_chroutine-idle r (modify_sched r (held now) s'),
      )
      (get_chroutine-modify_sched r (held now) (woken c) s' (λ x. refl) there')

-- A chroutine runs that is not moved and has neither frames nor time left to wait, and its tables have no
-- node at the invalid id. Where another thread wakes it once its `HOLD` has suspended it, it is due at any
-- time. Where the wake-up comes before the `HOLD`, behind the unlock of the channel, it is lost: the
-- chroutine is due only once the thirty years are over.
pub awake_chroutine-hold :
    (now later : ℕ) (c : Chroutine) (s : Schedule)
    → get_chroutine s.running_id s ≡ some c
    → is_running c.state ≡ true
    → s.running_id ≢ invalid_id
    → find invalid_id s.chroutines_map ≡ none
    → c.yield_to ≡ 0
    → c.yield_wait ≡ 0
    → c.moved ≡ false
    → (Option.map
          (is_due later)
          (get_chroutine s.running_id (awake_chroutine s.running_id (hold now s).1).1)
        ≡ some true)
      × (Option.map
            (is_due later)
            (get_chroutine s.running_id (hold now (awake_chroutine s.running_id s).1).1)
          ≡ some (leb (now + hold_ms) later))
unfolding yield_over
awake_chroutine-hold now later c s there runs real nobody plain frames still = (
  rw (awake-hold now c s there runs real plain nobody) (ap some (ground (arith, frames, still))),
  rw (hold-awake now c s there runs real plain nobody)
      (ap some (ground (arith, plain, frames, still))),
)
