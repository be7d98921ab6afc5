-- ===== src/Scheduler/Waits.antt =====
-- Fathers and sons of engin/chroutine.cpp: what the end of a wait does to the son, and what waking a
-- father does to a son that runs.
use chroutine.Prelude.{
  List, [], ◌∷◌, inl, inr, Option-cases, Bool-cases, not, ◌==◌, subst, sym, ℕ, ◌+◌, ◌≡◌, ◌≢◌, refl,
  ◌∙◌, Bool, true, false, none, some, arith,
}
use chroutine.Prelude.Int.{ℤ, positive}
use chroutine.Prelude.All.{all}
use chroutine.Scheduler.Inv.{running-touch}
use chroutine.Prelude.Ids.{contains, contains-delete}
use chroutine.Chroutine.{
  Chroutine, running, suspend, invalid_id, yield_over, SonResult, result_timeout, result_done,
}
use chroutine.Schedule.{Schedule, sched, find, get_chroutine, modify_sched, remove_chroutine}
use chroutine.Schedule.Tables.{
  ids, IsSynced, IsValid, find-assign, find-remove_chroutine, map-modify_sched,
  running-modify_sched, ids-remove_chroutine, running-remove_chroutine, ids-modify,
}
use chroutine.Schedule.Nodes.{sched-modify_sched}
use chroutine.Scheduler.{
  touch, suspend_current, yield_current, wait_current, awake_chroutine, resume,
}
use chroutine.Scheduler.Pick.{line, placed, ids-placed}

-- What the running chroutine may call to let others run, and the replies to a list of such calls, true
-- for each one that suspends it.
pub data Pause : Type 0 where
  yields : ℤ → Pause
  waits : ℤ → Bool → ℕ → Pause

pub pause : Pause → Schedule → Bool × Schedule
pause (yields tick) s = yield_current tick s
pause (waits ms stop_son now) s = wait_current ms stop_son now s

pub pauses : List Pause → Schedule → List Bool × Schedule
pauses [] s = ([], s)
pauses (p ∷ ps) s =
    let (switched, s') = pause p s in let (later, last) = pauses ps s' in (switched ∷ later, last)

-- The thread runs a chroutine that its tables do not have.
abbrev IsMissing : Schedule → Type 0
IsMissing s = get_chroutine s.running_id s ≡ none

-- A call that leaves the chroutine running, which is still missing.
abbrev GoesOn : Schedule → Bool × Schedule → Type 0
GoesOn s (switched, s') = (switched ≡ false) × (s'.running_id ≡ s.running_id) × IsMissing s'

get_chroutine-touch :
    (id : ℕ) (s : Schedule) → get_chroutine id s ≡ none → get_chroutine id (touch id s) ≡ none
unfolding get_chroutine touch
get_chroutine-touch id s h = elim (Option-cases (find id s.chroutines_map)) [
  | inl e ↦ ground (arith, e, find-assign id id false s.chroutines_map)
  | inr (b, e) ↦ rw (e, touch) h
]

suspend_current-GoesOn :
    (change : Chroutine → Chroutine) (s : Schedule)
    → IsMissing s
    → GoesOn s (suspend_current change s)
unfolding suspend_current
suspend_current-GoesOn change s h =
    let gone = get_chroutine-touch s.running_id s h in
    let same = running-touch s.running_id s in
    rw (gone, suspend_current)
      (refl, same, subst (λ r. get_chroutine r (touch s.running_id s) ≡ none) (sym same) gone)

pause-GoesOn : (p : Pause) (s : Schedule) → IsMissing s → GoesOn s (pause p s)
unfolding pause yield_current wait_current
pause-GoesOn (yields tick) s h = elim (Bool-cases (positive tick == 0)) [
  | inl nothing ↦ rw nothing (refl, refl, h)
  | inr some_left ↦ elim (Bool-cases (s.running_id == invalid_id)) [
    | inl idle ↦ rw (some_left, idle) (refl, refl, h)
    | inr busy ↦
        rw (some_left, busy)
          (suspend_current-GoesOn
            (λ co. record co { state = suspend; yield_wait = co.yield_wait + positive tick }) s h)
  ]
]
pause-GoesOn (waits ms stop_son now) s h = elim (Bool-cases (positive ms == 0)) [
  | inl nothing ↦ rw nothing (refl, refl, h)
  | inr some_left ↦ elim (Bool-cases (s.running_id == invalid_id)) [
    | inl idle ↦ rw (some_left, idle) (refl, refl, h)
    | inr busy ↦
        rw (some_left, busy)
          (suspend_current-GoesOn
            (λ co. record co {
              state = suspend;
              yield_to = now + positive ms;
              stop_son_when_yield_over = stop_son;
            })
            s h)
  ]
]

pauses-IsMissing :
    (ps : List Pause) (s : Schedule)
    → IsMissing s
    → (all not (pauses ps s).0 ≡ true) × ((pauses ps s).1.running_id ≡ s.running_id)
unfolding pauses
pauses-IsMissing [] s h = (refl, refl)
pauses-IsMissing (p ∷ ps) s h =
    let (stays, same, still) = pause-GoesOn p s h in
    let (rest, last) = pauses-IsMissing ps (pause p s).1 still in
    (ground (arith, stays, rest), last ∙ same)

yield_over-son :
    (r : SonResult) (c : Chroutine)
    → c.yield_to ≢ 0
    → c.stop_son_when_yield_over ≡ true
    → (yield_over r c).0 ≡ c.son
unfolding yield_over
yield_over-son r c to stop = ground arith

pub awake_chroutine-found :
    (id : ℕ) (c : Chroutine) (s : Schedule)
    → get_chroutine id s ≡ some c
    → (awake_chroutine id s).1
      ≡ remove_chroutine
          (yield_over result_done c).0
          (modify_sched id (λ c'. (yield_over result_done c').1) s)
unfolding awake_chroutine
awake_chroutine-found id c s e = rw (e, awake_chroutine)

-- The running chroutine wakes a father who waits for it with a time limit: it removes itself. From then
-- on, as long as it only yields and waits, in any order and with any arguments, and no other thread changes
-- the tables, none of
-- these calls suspends it, and it stays the one that the thread runs.
pub awake_chroutine-own_father :
    (father : ℕ) (ps : List Pause) (c : Chroutine) (s : Schedule)
    → get_chroutine father s ≡ some c
    → c.yield_to ≢ 0
    → c.stop_son_when_yield_over ≡ true
    → c.son ≡ s.running_id
    → let s' = (awake_chroutine father s).1 in
      (s'.running_id ≡ s.running_id)
      × (all not (pauses ps s').0 ≡ true)
      × ((pauses ps s').1.running_id ≡ s.running_id)
unfolding get_chroutine
awake_chroutine-own_father father ps c s e to stop son =
    let (stays, last) = pauses-IsMissing ps after (ground (arith, gone)) in
    rw (awake_chroutine-found father c s e) (same, stays, last ∙ same)
  where
    woken : Schedule
    woken = modify_sched father (λ c'. (yield_over result_done c').1) s

    after : Schedule
    after = remove_chroutine (yield_over result_done c).0 woken

    same : after.running_id ≡ s.running_id
    same =
        running-remove_chroutine (yield_over result_done c).0 woken
        ∙ running-modify_sched father (λ c'. (yield_over result_done c').1) s

    gone : find after.running_id after.chroutines_map ≡ none
    gone = ground (
      arith,
      same,
      yield_over-son result_done c to stop,
      find-remove_chroutine after.running_id (yield_over result_done c).0 woken,
    )

-- The end of a wait with a son that has run out of time: the son is in the tables no more.
pub resume-timeout :
    (c : Chroutine) (s : Schedule)
    → IsSynced s.chroutines_map (ids (line c s))
    → c.yield_to ≢ 0
    → c.stop_son_when_yield_over ≡ true
    → let s' = resume c.me c s in
      (contains c.son (ids (sched s')) ≡ false) × (find c.son s'.chroutines_map ≡ none)
unfolding resume
resume-timeout c s v to stop =
    rw
      (
        sched-modify_sched c.me (λ x. record x { state = running }) removed,
        ids-modify c.me (λ x. record x { state = running }) (sched removed) (λ x. refl),
        map-modify_sched,
      )
      (
        ground (
          arith,
          yield_over-son result_timeout c to stop,
          ids-remove_chroutine son placed-IsValid,
          contains-delete c.son son (ids (sched (placed c s))) placed-IsValid.synced.distinct,
        ),
        ground (
          arith,
          yield_over-son result_timeout c to stop,
          find-remove_chroutine c.son son (placed c s),
        ),
      )
  where
    son : ℕ
    son = (yield_over result_timeout c).0

    removed : Schedule
    removed = remove_chroutine son (placed c s)

    placed-IsValid : IsValid (placed c s)
    placed-IsValid = record { synced = rw (ids-placed c s) v }
