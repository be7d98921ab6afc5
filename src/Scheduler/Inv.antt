-- ===== src/Scheduler/Inv.antt =====
-- What every function of engin/chroutine.cpp on the tables keeps: the tables are in step, and only
-- the chroutine that the thread runs is in the state `running`, with no frames left to wait.
use chroutine.Prelude.{
  ℕ, ◌+◌, ◌≡◌, refl, inl, inr, Bool, true, false, not, ◌&&◌, ◌||◌, none, List, [], ◌∷◌, ◌≢◌, ◌==◌,
  arith, Bool-cases, Option-cases,
}
use chroutine.Prelude.Int.{ℤ, positive}
use chroutine.Prelude.All.{all, all-append, all_both}
use chroutine.Prelude.Ids.{contains, contains-delete}
use chroutine.Chroutine.{
  Chroutine, SonResult, suspend, invalid_id, blank, yield_over, son_finished, result_done,
}
use chroutine.Schedule.{
  Schedule, sched, find, assign, modify_sched, get_chroutine, push_back, remove_chroutine,
}
use chroutine.Schedule.Tables.{
  ids, IsSynced, IsValid, find-assign, remove_chroutine-IsValid, ids-remove_chroutine,
  running-remove_chroutine, push_back-IsValid, sched-push_back, running-push_back,
}
use chroutine.Schedule.Nodes.{
  sched-modify_sched, modify_sched-IsValid, all-modify, all-remove_chroutine, all-ne-contains,
}
use chroutine.Scheduler.{
  is_running, fresh, create_chroutine, adopt, touch, suspend_current, yield_current, wait_current,
  awake_chroutine, notify, finish,
}

abbrev pub node_ok : ℕ → Chroutine → Bool
node_ok r c =
    not (c.me == invalid_id) && (not (is_running c.state) || (c.me == r && c.yield_wait == 0))

pub record Inv (s : Schedule) : Type 0 where
  pub valid : IsValid s
  pub nodes : all (node_ok s.running_id) (sched s) ≡ true

-- A change through a pointer that keeps the id and every node's test.
pub modify_sched-Inv :
    (id : ℕ) (f : Chroutine → Chroutine) {s : Schedule}
    → ((c : Chroutine) → (f c).me ≡ c.me)
    → ((c : Chroutine) → (f c).state ≡ c.state)
    → ((c : Chroutine) → (f c).yield_wait ≡ c.yield_wait)
    → Inv s
    → Inv (modify_sched id f s)
unfolding modify_sched
modify_sched-Inv id f {s} m st w v = record {
  valid = modify_sched-IsValid id f m v.valid;
  nodes = rw (sched-modify_sched id f s) (
      all-modify id f (node_ok s.running_id) (node_ok s.running_id)
        (λ c h. ground (arith, m c, st c, w c)) (sched s) v.nodes);
}

pub remove_chroutine-Inv : (id : ℕ) {s : Schedule} → Inv s → Inv (remove_chroutine id s)
remove_chroutine-Inv id {s} v = record {
  valid = remove_chroutine-IsValid id v.valid;
  nodes =
      rw (running-remove_chroutine id s) (all-remove_chroutine (node_ok s.running_id) id s v.nodes);
}

push_back-Inv :
    (c : Chroutine) {s : Schedule}
    → contains c.me (ids (sched s)) ≡ false
    → node_ok s.running_id c ≡ true
    → Inv s
    → Inv (push_back c s)
push_back-Inv c {s} new ok v = record {
  valid = push_back-IsValid c v.valid new;
  nodes =
      rw (running-push_back c s, sched-push_back c s)
        (ground (arith, all-append (node_ok s.running_id) (sched s) (c ∷ []), v.nodes));
}

pub create_chroutine-Inv :
    (self id func arg : ℕ) {s : Schedule}
    → contains id (ids (sched s)) ≡ false
    → id ≢ invalid_id
    → Inv s
    → Inv (create_chroutine self id func arg s)
unfolding create_chroutine fresh blank
create_chroutine-Inv self id func arg {s} new ne v =
    push_back-Inv (fresh self id func arg) new (ground arith) v

pub adopt-Inv : (father son : ℕ) {s : Schedule} → Inv s → Inv (adopt father son s)
unfolding adopt
adopt-Inv father son v =
    modify_sched-Inv father (λ c. record c { son = son }) (λ c. refl) (λ c. refl) (λ c. refl)
      (modify_sched-Inv son (λ c. record c { father = father }) (λ c. refl) (λ c. refl) (λ c. refl)
        v)

-- A null pointer at a new key points to no chroutine of the list.
pub assign_null-IsSynced :
    (id : ℕ) {m : List (ℕ × Bool)} {l : List ℕ}
    → find id m ≡ none
    → IsSynced m l
    → IsSynced (assign id false m) l
assign_null-IsSynced id {m} {l} e v = record {
  distinct = v.distinct;
  keyed = λ i. ground (arith, find-assign i id false m, v.keyed i);
}

touch-Inv : (id : ℕ) {s : Schedule} → Inv s → Inv (touch id s)
unfolding touch
touch-Inv id {s} v = elim (Option-cases (find id s.chroutines_map)) [
  | inl e ↦
      rw (e, touch)
        (record {
          valid = record { synced = assign_null-IsSynced id e v.valid.synced };
          nodes = v.nodes;
        })
  | inr (b, e) ↦ rw (e, touch) v
]

pub running-touch : (id : ℕ) (s : Schedule) → (touch id s).running_id ≡ s.running_id
unfolding touch
running-touch id s = ground arith

-- Once the running chroutine is suspended, no node runs.
suspended-Inv :
    (r : ℕ) (change : Chroutine → Chroutine) {s : Schedule}
    → s.running_id ≡ r
    → ((c : Chroutine) → (change c).me ≡ c.me)
    → ((c : Chroutine) → is_running (change c).state ≡ false)
    → Inv s
    → Inv (record (modify_sched r change s) { running_id = invalid_id })
suspended-Inv r change {s} e m st v = record {
  valid = record { synced = (modify_sched-IsValid r change m v.valid).synced };
  nodes = rw (sched-modify_sched r change s) (
      all-modify r change (node_ok s.running_id) (node_ok invalid_id)
        (λ c h. ground (arith, m c, st c)) (sched s) v.nodes);
}

suspend_current-Inv :
    (change : Chroutine → Chroutine) {s : Schedule}
    → ((c : Chroutine) → (change c).me ≡ c.me)
    → ((c : Chroutine) → is_running (change c).state ≡ false)
    → Inv s
    → Inv (suspend_current change s).1
unfolding suspend_current
suspend_current-Inv change {s} m st v =
    let s' = touch s.running_id s in
    let touched = touch-Inv s.running_id v in
    elim (Option-cases (get_chroutine s.running_id s')) [
      | inl e ↦ rw (e, suspend_current) touched
      | inr (co, e) ↦ elim (Bool-cases (is_running co.state)) [
        | inl run ↦
            rw (e, suspend_current, run)
              (suspended-Inv s.running_id change (running-touch s.running_id s) m st touched)
        | inr still ↦ rw (e, suspend_current, still) touched
      ]
    ]

pub yield_current-Inv : (tick : ℤ) {s : Schedule} → Inv s → Inv (yield_current tick s).1
unfolding yield_current
yield_current-Inv tick {s} v = elim (Bool-cases (positive tick == 0)) [
  | inl none_left ↦ rw none_left v
  | inr some_left ↦ elim (Bool-cases (s.running_id == invalid_id)) [
    | inl idle ↦ rw (some_left, idle) v
    | inr busy ↦
        rw (some_left, busy)
          (suspend_current-Inv
            (λ co. record co { state = suspend; yield_wait = co.yield_wait + positive tick })
            (λ c. refl) (λ c. refl) v)
  ]
]

pub wait_current-Inv :
    (ms : ℤ) (stop : Bool) (now : ℕ) {s : Schedule} → Inv s → Inv (wait_current ms stop now s).1
unfolding wait_current
wait_current-Inv ms stop now {s} v = elim (Bool-cases (positive ms == 0)) [
  | inl none_left ↦ rw none_left v
  | inr some_left ↦ elim (Bool-cases (s.running_id == invalid_id)) [
    | inl idle ↦ rw (some_left, idle) v
    | inr busy ↦
        rw (some_left, busy)
          (suspend_current-Inv
            (λ co. record co {
              state = suspend;
              yield_to = now + positive ms;
              stop_son_when_yield_over = stop;
            })
            (λ c. refl) (λ c. refl) v)
  ]
]

pub yield_over-frame :
    (r : SonResult) (c : Chroutine)
    → let c' = (yield_over r c).1 in
      (c'.me ≡ c.me) × (c'.state ≡ c.state) × (c'.yield_wait ≡ c.yield_wait)
unfolding yield_over
yield_over-frame r c = ground arith

pub awake_chroutine-Inv : (id : ℕ) {s : Schedule} → Inv s → Inv (awake_chroutine id s).1
unfolding awake_chroutine
awake_chroutine-Inv id {s} v = elim (Option-cases (get_chroutine id s)) [
  | inl e ↦ rw (e, awake_chroutine) v
  | inr (c, e) ↦
      rw (e, awake_chroutine)
        (remove_chroutine-Inv (yield_over result_done c).0 (
          modify_sched-Inv id (λ c'. (yield_over result_done c').1)
            (λ c'. (yield_over-frame result_done c').0) (λ c'. (yield_over-frame result_done c').1)
            (λ c'. (yield_over-frame result_done c').2) v))
]

pub son_finished-frame :
    (c : Chroutine)
    → let c' = son_finished c in
      (c'.me ≡ c.me) × (c'.state ≡ c.state) × (c'.yield_wait ≡ c.yield_wait)
unfolding son_finished
son_finished-frame c = (refl, refl, refl)

notify-Inv : (father : ℕ) {s : Schedule} → Inv s → Inv (notify father s)
unfolding notify
notify-Inv father {s} v = elim (Bool-cases (father == invalid_id)) [
  | inl nobody_waits ↦ rw nobody_waits v
  | inr waits ↦ elim (Option-cases (get_chroutine father s)) [
    | inl e ↦ rw (waits, e) v
    | inr (c, e) ↦
        rw (waits, e)
          (modify_sched-Inv father son_finished (λ c'. (son_finished-frame c').0)
            (λ c'. (son_finished-frame c').1) (λ c'. (son_finished-frame c').2) v)
  ]
]

-- Without the chroutine that runs, no node runs.
ended-Inv :
    (id : ℕ) {s : Schedule}
    → id ≡ s.running_id
    → Inv s
    → Inv (record (remove_chroutine id s) { running_id = invalid_id })
ended-Inv id {s} e v = record {
  valid = record { synced = (remove_chroutine-IsValid id v.valid).synced };
  nodes =
      all_both (node_ok s.running_id) (λ c. not (c.me == id)) (node_ok invalid_id)
        (λ c a b. ground arith) (sched (remove_chroutine id s))
        (all-remove_chroutine (node_ok s.running_id) id s v.nodes)
        (all-ne-contains id (sched (remove_chroutine id s)) gone);
}
  where
    gone : contains id (ids (sched (remove_chroutine id s))) ≡ false
    gone =
        rw (ids-remove_chroutine id v.valid)
          (ground (arith, contains-delete id id (ids (sched s)) v.valid.synced.distinct))

pub finish-Inv :
    (p_c : Chroutine) {s : Schedule} → p_c.me ≡ s.running_id → Inv s → Inv (finish p_c s)
unfolding finish
finish-Inv p_c {s} e v = notify-Inv p_c.father (ended-Inv p_c.me e v)
