-- ===== src/Thread/Move/Conserve.antt =====
-- `move_chroutines_to_thread` of engin/chroutine.cpp loses no chroutine and runs none twice.
use chroutine.Prelude.{
  ℕ, ◌≡◌, ◌≢◌, refl, sym, ap, ap₂, ◌∙◌, subst, inl, inr, false, List, [], ◌∷◌, ◌++◌, map, ◌==◌,
  if◌then◌else◌, arith, Bool-cases, append-nil, append_assoc, ==_iff,
}
use chroutine.Prelude.Ids.{
  contains, Distinct, delete, delete_all, delete_all-delete, delete_absent, Distinct-middle,
  Distinct-drop,
}
use mathlib.Core.List.{map-append}
use chroutine.Chroutine.{Chroutine, move, set_moved}
use chroutine.Schedule.{Schedule, sched}
use chroutine.Schedule.Tables.{
  ids, IsValid, sched-push_back, push_back-IsValid, ids-remove_chroutine, remove_chroutine-IsValid,
}
use chroutine.Thread.{Thread, blocking}
use chroutine.Thread.Move.{
  relink, resettle, resettle_one, resettle_all, moved_from, ids_to_move, remove_all, leave,
  move_chroutines_to_thread,
}

me-relink : (a : ℕ) (c : Chroutine) → (relink a (move c).0).me ≡ c.me
unfolding relink move
me-relink a c = refl

ids-resettle :
    (a : ℕ) (c : Chroutine) (o : Schedule)
    → ids (sched (resettle a c o)) ≡ ids (sched o) ++ c.me ∷ []
unfolding resettle
ids-resettle a c o =
    ap ids (sched-push_back (relink a (move c).0) o)
    ∙ map-append (λ x. x.me) (sched o) (relink a (move c).0 ∷ [])
    ∙ ap (λ i. ids (sched o) ++ i ∷ []) (me-relink a c)

ids-resettle_one :
    (r a : ℕ) (c : Chroutine) (o : Schedule)
    → ids (sched (resettle_one r a c o))
      ≡ (if c.me == r then ids (sched o) else ids (sched o) ++ c.me ∷ [])
unfolding resettle_one
ids-resettle_one r a c o = elim (Bool-cases (c.me == r)) [
  | inl runs ↦ rw runs refl
  | inr waits ↦ rw waits (ids-resettle a c o)
]

-- The other thread gets the moved ones behind its own, in their order.
ids-resettle_all :
    (r a : ℕ) (cs : List Chroutine) (o : Schedule)
    → ids (sched (resettle_all r a cs o)) ≡ ids (sched o) ++ ids_to_move r cs
unfolding resettle_all ids_to_move
ids-resettle_all r a [] o = sym (append-nil (ids (sched o)))
ids-resettle_all r a (c ∷ cs) o =
    ids-resettle_all r a cs (resettle_one r a c o)
    ∙ ap (λ l. l ++ ids_to_move r cs) (ids-resettle_one r a c o)
    ∙ elim (Bool-cases (c.me == r)) [
      | inl runs ↦ rw runs refl
      | inr waits ↦ rw waits (append_assoc (ids (sched o)) (c.me ∷ []) (ids_to_move r cs))
    ]

resettle-IsValid :
    (a : ℕ) (c : Chroutine) {o : Schedule}
    → IsValid o
    → contains c.me (ids (sched o)) ≡ false
    → IsValid (resettle a c o)
unfolding resettle
resettle-IsValid a c v h = push_back-IsValid (relink a (move c).0) v (rw me-relink h)

resettle_one-IsValid :
    (r a : ℕ) (c : Chroutine) {o : Schedule}
    → IsValid o
    → contains c.me (ids (sched o)) ≡ false
    → IsValid (resettle_one r a c o)
unfolding resettle_one
resettle_one-IsValid r a c v h = elim (Bool-cases (c.me == r)) [
  | inl runs ↦ rw runs v
  | inr waits ↦ rw waits (resettle-IsValid a c v h)
]

Distinct-resettle_one :
    (r a : ℕ) (c : Chroutine) (o : Schedule) (l : List ℕ)
    → Distinct (ids (sched o) ++ c.me ∷ l)
    → Distinct (ids (sched (resettle_one r a c o)) ++ l)
Distinct-resettle_one r a c o l d = elim (Bool-cases (c.me == r)) [
  | inl runs ↦ rw (ids-resettle_one r a c o, runs) (Distinct-drop c.me (ids (sched o)) l d)
  | inr waits ↦ rw (ids-resettle_one r a c o, waits, append_assoc (ids (sched o)) (c.me ∷ []) l) d
]

resettle_all-IsValid :
    (r a : ℕ) (cs : List Chroutine) {o : Schedule}
    → IsValid o
    → Distinct (ids (sched o) ++ ids cs)
    → IsValid (resettle_all r a cs o)
unfolding resettle_all
resettle_all-IsValid r a [] v d = v
resettle_all-IsValid r a (c ∷ cs) {o} v d =
    resettle_all-IsValid r a cs
      (resettle_one-IsValid r a c v (Distinct-middle c.me (ids (sched o)) (ids cs) d).0)
      (Distinct-resettle_one r a c o (ids cs) d)

ids_to_move-delete :
    (r : ℕ) (cs : List Chroutine) → Distinct (ids cs) → ids_to_move r cs ≡ delete r (ids cs)
unfolding ids_to_move
ids_to_move-delete r [] d = refl
ids_to_move-delete r (c ∷ cs) d = elim (Bool-cases (c.me == r)) [
  | inl runs ↦ rw runs (
      ids_to_move-delete r cs d.1
      ∙ delete_absent r (ids cs)
          (subst (λ i. contains i (ids cs) ≡ false) ((==_iff c.me r).0 runs) d.0))
  | inr waits ↦ rw waits (ap (λ l. c.me ∷ l) (ids_to_move-delete r cs d.1))
]

remove_all-IsValid : (xs : List ℕ) {s : Schedule} → IsValid s → IsValid (remove_all xs s)
unfolding remove_all
remove_all-IsValid [] v = v
remove_all-IsValid (x ∷ xs) v = remove_all-IsValid xs (remove_chroutine-IsValid x v)

ids-remove_all :
    (xs : List ℕ) {s : Schedule}
    → IsValid s
    → ids (sched (remove_all xs s)) ≡ delete_all xs (ids (sched s))
unfolding remove_all
ids-remove_all [] v = refl
ids-remove_all (x ∷ xs) v =
    ids-remove_all xs (remove_chroutine-IsValid x v)
    ∙ ap (λ l. delete_all xs l) (ids-remove_chroutine x v)

ids-moved_from : (r : ℕ) (cs : List Chroutine) → ids (map (moved_from r) cs) ≡ ids cs
unfolding moved_from move set_moved
ids-moved_from r [] = refl
ids-moved_from r (c ∷ cs) = ground (arith, ids-moved_from r cs)

module _ {s : Schedule} (v : IsValid s) where
  abbrev marked : Schedule
  marked = record s {
    visited = map (moved_from s.running_id) s.visited;
    rest = map (moved_from s.running_id) s.rest;
  }

  ids-marked : ids (sched marked) ≡ ids (sched s)
  ids-marked =
      map-append (λ x. x.me) (map (moved_from s.running_id) s.visited)
        (map (moved_from s.running_id) s.rest)
      ∙ ap₂ ◌++◌ (ids-moved_from s.running_id s.visited) (ids-moved_from s.running_id s.rest)
      ∙ sym (map-append (λ x. x.me) s.visited s.rest)

  marked-IsValid : IsValid marked
  marked-IsValid = record { synced = rw ids-marked v.synced }

  leave-IsValid : IsValid (leave s)
  unfolding leave
  leave-IsValid = remove_all-IsValid (ids_to_move s.running_id (sched s)) marked-IsValid

  ids-leave :
      ids (sched (leave s))
      ≡ (if contains s.running_id (ids (sched s)) then s.running_id ∷ [] else [])
  unfolding leave
  ids-leave =
      ids-remove_all (ids_to_move s.running_id (sched s)) marked-IsValid
      ∙ ap₂ delete_all (ids_to_move-delete s.running_id (sched s) v.synced.distinct) ids-marked
      ∙ delete_all-delete s.running_id (ids (sched s)) v.synced.distinct

-- A move to another thread keeps only the running chroutine, if there is one, and the state is
-- `blocking`; the other thread has all the others behind its own, each once and in their order. Both
-- threads' tables stay in step, if no chroutine was in both before.
pub move_chroutines_to_thread_lem :
    (t other : Thread)
    → other.address ≢ t.address
    → IsValid t.schedule
    → IsValid other.schedule
    → Distinct (ids (sched other.schedule) ++ ids (sched t.schedule))
    → let (t', other') = move_chroutines_to_thread t other in
      let r = t.schedule.running_id in
      let l = ids (sched t.schedule) in
      (ids (sched t'.schedule) ≡ (if contains r l then r ∷ [] else []))
      × (t'.state ≡ blocking)
      × (ids (sched other'.schedule) ≡ ids (sched other.schedule) ++ delete r l)
      × IsValid t'.schedule
      × IsValid other'.schedule
unfolding move_chroutines_to_thread
move_chroutines_to_thread_lem t other ne v w d = elim (Bool-cases (other.address == t.address)) [
  | inl same ↦ absurd (ne ((==_iff other.address t.address).0 same))
  | inr differs ↦ rw differs (
    ids-leave v,
    refl,
    ids-resettle_all t.schedule.running_id other.address (sched t.schedule) other.schedule
        ∙ ap (λ l. ids (sched other.schedule) ++ l)
            (ids_to_move-delete t.schedule.running_id (sched t.schedule) v.synced.distinct),
    leave-IsValid v,
    resettle_all-IsValid t.schedule.running_id other.address (sched t.schedule) w d,
  )
]
