-- ===== src/Scheduler/Keeps.antt =====
-- The functions of engin/chroutine.cpp on one thread's tables bring no chroutine into them, except for
-- the creation, and keep the map and the list in step even where the running chroutine is not the one
-- that the thread believes to run.
pub mod Picks
use chroutine.Prelude.{
  ℕ, ◌+◌, ◌≡◌, refl, sym, ap, ap₂, ◌∙◌, subst, inl, inr, ◌⊎◌, Bool, true, false, not, ◌&&◌, ◌||◌,
  none, some, List, [], ◌∷◌, ◌++◌, ◌==◌, ==_iff, if◌then◌else◌, arith, Bool-cases, Option-cases,
  append-nil, append_assoc,
}
use mathlib.Core.List.{map-append}
use chroutine.Prelude.Int.{ℤ, positive}
use chroutine.Prelude.Ids.{contains, contains-delete, contains-append}
use chroutine.Chroutine.{
  blank, Chroutine, SonResult, suspend, running, result_done, result_timeout, invalid_id,
  yield_over, son_finished, State,
}
use chroutine.Schedule.{
  Schedule, sched, find, assign, modify_sched, get_chroutine, push_back, remove_chroutine,
}
use chroutine.Schedule.Tables.{
  ids, IsSynced, IsValid, ids-modify, ids-remove_chroutine, remove_chroutine-IsValid,
}
use chroutine.Schedule.Nodes.{sched-modify_sched, modify_sched-IsValid}
use chroutine.Scheduler.{
  fresh, is_running, adopt, touch, suspend_current, yield_current, wait_current, count_down, scan,
  rewind, resume, pick_from, pick_run_chroutine, awake_chroutine, notify, finish,
}
use chroutine.Scheduler.Scan.{Scans, nobody, somebody, scan_cases, ids-count_down, rewind_lem}
use chroutine.Scheduler.Inv.{assign_null-IsSynced, yield_over-frame, son_finished-frame}
use chroutine.Scheduler.Pick.{line, placed, ids-placed, passed_by, pick_from-none, pick_from-some}

-- All ids of the one list are in the other.
abbrev pub Within : List ℕ → List ℕ → Type 0
Within l l' = (i : ℕ) → contains i l ≡ true → contains i l' ≡ true

-- A change of the tables that keeps them in step and brings no chroutine in.
abbrev pub Keeps : Schedule → Schedule → Type 0
Keeps s t = IsValid s → IsValid t × Within (ids (sched t)) (ids (sched s))

pub Keeps-refl : (s : Schedule) → Keeps s s
Keeps-refl s v = (v, λ i h. h)

pub Keeps-trans : (s t u : Schedule) → Keeps s t → Keeps t u → Keeps s u
Keeps-trans s t u first second v =
    let (w, back) = first v in let (x, further) = second w in (x, λ i h. back i (further i h))

-- It is enough that the map and the ids are the same.
pub Keeps-same :
    (s t : Schedule)
    → t.chroutines_map ≡ s.chroutines_map
    → ids (sched t) ≡ ids (sched s)
    → Keeps s t
Keeps-same s t map_same ids_same v = (
  record {
    synced =
        subst (λ m. IsSynced m (ids (sched t))) (sym map_same)
          (subst (λ l. IsSynced s.chroutines_map l) (sym ids_same) v.synced);
  },
  λ i h. ap (contains i) (sym ids_same) ∙ h,
)

pub modify_sched-Keeps :
    (id : ℕ) (f : Chroutine → Chroutine) (s : Schedule)
    → ((c : Chroutine) → (f c).me ≡ c.me)
    → Keeps s (modify_sched id f s)
modify_sched-Keeps id f s h v = (
  modify_sched-IsValid id f h v,
  λ i there.
      ap (contains i) (sym (ap ids (sched-modify_sched id f s) ∙ ids-modify id f (sched s) h))
      ∙ there,
)

pub remove_chroutine-Keeps : (id : ℕ) (s : Schedule) → Keeps s (remove_chroutine id s)
remove_chroutine-Keeps id s v = (
  remove_chroutine-IsValid id v,
  λ i there.
      let left = contains-delete i id (ids (sched s)) v.synced.distinct in
      ground (arith, ap (contains i) (ids-remove_chroutine id v), left, there),
)

idle-Keeps : (s : Schedule) → Keeps s (record s { running_id = invalid_id })
idle-Keeps s = Keeps-same s (record s { running_id = invalid_id }) refl refl

touch-Keeps : (id : ℕ) (s : Schedule) → Keeps s (touch id s)
unfolding touch
touch-Keeps id s v = elim (Option-cases (find id s.chroutines_map)) [
  | inl e ↦ rw (e, touch) (record { synced = assign_null-IsSynced id e v.synced }, λ i h. h)
  | inr (b, e) ↦ rw (e, touch) (v, λ i h. h)
]

suspend_current-Keeps :
    (change : Chroutine → Chroutine) (s : Schedule)
    → ((c : Chroutine) → (change c).me ≡ c.me)
    → Keeps s (suspend_current change s).1
unfolding suspend_current
suspend_current-Keeps change s m =
    let s' = touch s.running_id s in
    let touched = touch-Keeps s.running_id s in
    let changed = modify_sched s.running_id change s' in
    elim (Option-cases (get_chroutine s.running_id s')) [
      | inl e ↦ rw (e, suspend_current) touched
      | inr (co, e) ↦ elim (Bool-cases (is_running co.state)) [
        | inl run ↦
            rw (e, suspend_current, run)
              (Keeps-trans s s' (record changed { running_id = invalid_id }) touched
                (Keeps-trans s' changed (record changed { running_id = invalid_id })
                  (modify_sched-Keeps s.running_id change s' m) (idle-Keeps changed)))
        | inr still ↦ rw (e, suspend_current, still) touched
      ]
    ]

pub yield_current-Keeps : (tick : ℤ) (s : Schedule) → Keeps s (yield_current tick s).1
unfolding yield_current
yield_current-Keeps tick s = elim (Bool-cases (positive tick == 0)) [
  | inl none_left ↦ rw none_left (Keeps-refl s)
  | inr some_left ↦ elim (Bool-cases (s.running_id == invalid_id)) [
    | inl idle ↦ rw (some_left, idle) (Keeps-refl s)
    | inr busy ↦
        rw (some_left, busy)
          (suspend_current-Keeps
            (λ co. record co { state = suspend; yield_wait = co.yield_wait + positive tick }) s
            (λ c. refl))
  ]
]

pub wait_current-Keeps :
    (ms : ℤ) (stop : Bool) (now : ℕ) (s : Schedule) → Keeps s (wait_current ms stop now s).1
unfolding wait_current
wait_current-Keeps ms stop now s = elim (Bool-cases (positive ms == 0)) [
  | inl none_left ↦ rw none_left (Keeps-refl s)
  | inr some_left ↦ elim (Bool-cases (s.running_id == invalid_id)) [
    | inl idle ↦ rw (some_left, idle) (Keeps-refl s)
    | inr busy ↦
        rw (some_left, busy)
          (suspend_current-Keeps
            (λ co. record co {
              state = suspend;
              yield_to = now + positive ms;
              stop_son_when_yield_over = stop;
            })
            s (λ c. refl))
  ]
]

pub adopt-Keeps : (father son : ℕ) (s : Schedule) → Keeps s (adopt father son s)
unfolding adopt
adopt-Keeps father son s =
    let tied = modify_sched son (λ c. record c { father = father }) s in
    Keeps-trans s tied (modify_sched father (λ c. record c { son = son }) tied)
      (modify_sched-Keeps son (λ c. record c { father = father }) s (λ c. refl))
      (modify_sched-Keeps father (λ c. record c { son = son }) tied (λ c. refl))

pub awake_chroutine-Keeps : (id : ℕ) (s : Schedule) → Keeps s (awake_chroutine id s).1
unfolding awake_chroutine
awake_chroutine-Keeps id s = elim (Option-cases (get_chroutine id s)) [
  | inl e ↦ rw (e, awake_chroutine) (Keeps-refl s)
  | inr (c, e) ↦
      let woken = modify_sched id (λ c'. (yield_over result_done c').1) s in
      let son = (yield_over result_done c).0 in
      rw (e, awake_chroutine)
        (Keeps-trans s woken (remove_chroutine son woken)
          (modify_sched-Keeps id (λ c'. (yield_over result_done c').1) s
            (λ c'. (yield_over-frame result_done c').0))
          (remove_chroutine-Keeps son woken))
]

notify-Keeps : (father : ℕ) (s : Schedule) → Keeps s (notify father s)
unfolding notify
notify-Keeps father s = elim (Bool-cases (father == invalid_id)) [
  | inl nobody_waits ↦ rw nobody_waits (Keeps-refl s)
  | inr waits ↦ elim (Option-cases (get_chroutine father s)) [
    | inl e ↦ rw (waits, e) (Keeps-refl s)
    | inr (c, e) ↦
        rw (waits, e) (modify_sched-Keeps father son_finished s (λ c'. (son_finished-frame c').0))
  ]
]

pub finish-Keeps : (p_c : Chroutine) (s : Schedule) → Keeps s (finish p_c s)
unfolding finish
finish-Keeps p_c s =
    let removed = remove_chroutine p_c.me s in
    let idle = record removed { running_id = invalid_id } in
    Keeps-trans s removed (notify p_c.father idle) (remove_chroutine-Keeps p_c.me s) (
      Keeps-trans removed idle (notify p_c.father idle) (idle-Keeps removed)
        (notify-Keeps p_c.father idle))

pub me-fresh : (self id func arg : ℕ) → (fresh self id func arg).me ≡ id
unfolding fresh blank
me-fresh self id func arg = refl
