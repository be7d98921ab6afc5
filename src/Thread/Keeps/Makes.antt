-- ===== src/Thread/Keeps/Makes.antt =====
-- The creations of `chroutine_thread_t` bring the one chroutine with the next id into the thread.
use chroutine.Prelude.{
  ℕ, ◌+◌, ◌^◌, ◌<◌, ◌≡◌, refl, sym, ap, ◌∙◌, ◌⊎◌, inl, inr, true, false, Option, none, some, List,
  [], ◌∷◌, ◌++◌, ◌==◌, arith, Bool-cases, Option-cases,
}
use mathlib.Core.List.{map-append}
use chroutine.Prelude.Ids.{contains, contains-append}
use chroutine.Chroutine.{Chroutine, SonResult, invalid_id}
use chroutine.Schedule.{Schedule, sched, get_chroutine, modify_sched, push_back}
use chroutine.Schedule.Tables.{ids, IsValid, push_back-IsValid, sched-push_back, ids-modify}
use chroutine.Schedule.Nodes.{sched-modify_sched}
use chroutine.Scheduler.{fresh}
use chroutine.Scheduler
use chroutine.Scheduler.Keeps.{me-fresh, Keeps-refl, modify_sched-Keeps, adopt-Keeps}
use chroutine.Thread.{
  Thread, Created, gen_chroutine_id, is_closed, create_chroutine, create_son_chroutine, tie,
  refused,
}
use chroutine.Thread.Keeps.{KeepsThread}

-- A creation: the address stays; the counter stays or is the next id; if that id is not in the thread,
-- the tables stay in step, and they have no other new id than that, and only if the counter is it now.
pub record Makes (counter : ℕ) (t : Thread) (r : Created) : Type 0 where
  pub home : r.thread.address ≡ t.address
  pub counts : (r.counter ≡ counter) ⊎ (r.counter ≡ gen_chroutine_id counter)
  pub brings :
      IsValid t.schedule
      → contains (gen_chroutine_id counter) (ids (sched t.schedule)) ≡ false
      → IsValid r.thread.schedule
        × ((i : ℕ)
            → contains i (ids (sched r.thread.schedule)) ≡ true
            → (contains i (ids (sched t.schedule)) ≡ true)
              ⊎ ((i ≡ gen_chroutine_id counter) × (r.counter ≡ gen_chroutine_id counter)))

refused-Makes : (counter : ℕ) (t : Thread) → Makes counter t (refused counter t)
refused-Makes counter t = record {
  home = refl;
  counts = inl refl;
  brings = λ v new. (v, λ i h. inl h);
}

Makes-then :
    (counter : ℕ) (t u : Thread) (r : Created)
    → KeepsThread t u
    → ids (sched u.schedule) ≡ ids (sched t.schedule)
    → Makes counter u r
    → Makes counter t r
Makes-then counter t u r (home, keeps) same m = record {
  home = m.home ∙ home;
  counts = m.counts;
  brings = λ v new.
      let (valid, from) =
        m.brings (keeps v).0 (ap (contains (gen_chroutine_id counter)) same ∙ new) in
      (
        valid,
        λ i h. elim (from i h) [ inl old ↦ inl ((keeps v).1 i old) | inr is_new ↦ inr is_new ],
      );
}

-- What follows the creation brings nothing in.
pub then-Makes :
    (counter : ℕ) (t : Thread) (r : Created) (id : ℕ) (u : Thread)
    → Makes counter t r
    → KeepsThread r.thread u
    → Makes counter t (record { id = id; counter = r.counter; thread = u })
then-Makes counter t r id u m (home, keeps) = record {
  home = home ∙ m.home;
  counts = m.counts;
  brings = λ v new.
      let (valid, from) = m.brings v new in ((keeps valid).0, λ i h. from i ((keeps valid).1 i h));
}

fresh-Makes :
    (counter f arg : ℕ) (t : Thread)
    → let id = gen_chroutine_id counter in
      Makes counter t (record {
        id = id;
        counter = id;
        thread = record t { schedule = Scheduler.create_chroutine t.address id f arg t.schedule };
      })
unfolding Scheduler.create_chroutine
fresh-Makes counter f arg t =
    let id = gen_chroutine_id counter in
    let c = fresh t.address id f arg in
    record {
      home = refl;
      counts = inr refl;
      brings = λ v new. (
        push_back-IsValid c v
            (ap (λ k. contains k (ids (sched t.schedule))) (me-fresh t.address id f arg) ∙ new),
        λ i h. old_or_new i id (ids (sched t.schedule)) (
            ap (contains i) (
              sym (
                ids-push c t.schedule
                ∙ ap (λ k. ids (sched t.schedule) ++ k ∷ []) (me-fresh t.address id f arg)))
            ∙ h),
      );
    }
  where
    ids-push :
        (c : Chroutine) (s : Schedule) → ids (sched (push_back c s)) ≡ ids (sched s) ++ c.me ∷ []
    ids-push c s = ap ids (sched-push_back c s) ∙ map-append (λ x. x.me) (sched s) (c ∷ [])

    old_or_new :
        (i id : ℕ) (l : List ℕ)
        → contains i (l ++ id ∷ []) ≡ true
        → (contains i l ≡ true) ⊎ ((i ≡ id) × (id ≡ id))
    old_or_new i id l h = ground (arith, contains-append i l (id ∷ []))

pub create_chroutine-Makes :
    (counter : ℕ) (func : Option ℕ) (arg : ℕ) (t : Thread)
    → Makes counter t (create_chroutine counter func arg t)
unfolding create_chroutine
create_chroutine-Makes counter none arg t = refused-Makes counter t
create_chroutine-Makes counter (some f) arg t = elim (Bool-cases (is_closed t.state)) [
  | inl closed ↦ rw closed (refused-Makes counter t)
  | inr open_ ↦ rw open_ (fresh-Makes counter f arg t)
]

tie-Makes :
    (counter father : ℕ) (t : Thread) (r : Created)
    → Makes counter t r
    → Makes counter t (tie father r)
unfolding tie
tie-Makes counter father t r m = elim (Bool-cases (r.id == invalid_id)) [
  | inl none_made ↦ rw none_made m
  | inr some_made ↦ elim (Option-cases (get_chroutine r.id r.thread.schedule)) [
    | inl e ↦
        rw (some_made, e)
          (then-Makes counter t r invalid_id r.thread m (refl, Keeps-refl r.thread.schedule))
    | inr (c, e) ↦
        rw (some_made, e)
          (then-Makes counter t r r.id
            (record r.thread { schedule = Scheduler.adopt father r.id r.thread.schedule }) m
            (refl, adopt-Keeps father r.id r.thread.schedule))
  ]
]

pub create_son_chroutine-Makes :
    (counter : ℕ) (func : Option ℕ) (result : SonResult) (arg : ℕ) (t : Thread)
    → Makes counter t (create_son_chroutine counter func result arg t)
unfolding create_son_chroutine
create_son_chroutine-Makes counter func result arg t = elim (Bool-cases (is_closed t.state)) [
  | inl closed ↦ rw closed (refused-Makes counter t)
  | inr open_ ↦ elim (Option-cases (get_chroutine t.schedule.running_id t.schedule)) [
    | inl e ↦ rw (open_, e) (refused-Makes counter t)
    | inr (c, e) ↦
        let set = λ (x : Chroutine). record x { reporter = some result } in
        let told = record t { schedule = modify_sched t.schedule.running_id set t.schedule } in
        rw (open_, e)
          (tie-Makes counter t.schedule.running_id t (create_chroutine counter func arg told) (
            Makes-then counter t told (create_chroutine counter func arg told)
              (refl, modify_sched-Keeps t.schedule.running_id set t.schedule (λ x. refl))
              (ap ids (sched-modify_sched t.schedule.running_id set t.schedule)
                ∙ ids-modify t.schedule.running_id set (sched t.schedule) (λ x. refl))
              (create_chroutine-Makes counter func arg told)))
  ]
]

-- As long as the counter has room, the next id is the next number.
pub gen_chroutine_id_room : (n : ℕ) → n + 1 < 2 ^ 64 → gen_chroutine_id n ≡ n + 1
unfolding gen_chroutine_id
gen_chroutine_id_room n room = omega (arith, room)
