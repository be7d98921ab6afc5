-- ===== src/Engine/Owners/Creating.antt =====
-- The creations of engin/engine.cpp give the new chroutine one owner.
use chroutine.Prelude.{
  ℕ, ◌+◌, ◌<◌, ◌≡◌, refl, sym, subst, inl, inr, Option, none, some, ◌==◌, Bool-cases, Option-cases,
}
use chroutine.Prelude.Int.{pos}
use chroutine.Chroutine.{SonResult, invalid_id}
use chroutine.Thread.{Thread, ThreadType, Created, worker, main}
use chroutine.Thread
use chroutine.Thread.Keeps.{wait-KeepsThread}
use chroutine.Thread.Keeps.Makes.{
  Makes, then-Makes, create_chroutine-Makes, create_son_chroutine-Makes,
}
use chroutine.Engine.{
  Engine, get_lightest_thread, get_thread_by_id, store_created, create_chroutine,
  create_chroutine_in_mainthread, create_son, create_son_chroutine,
}
use chroutine.Engine.Owners.{IsOwned, HasRoom, Owned, make-Owned}

store_created-IsOwned :
    (a : ℕ) (r : Created) (e : Engine)
    → IsOwned e
    → HasRoom e
    → Makes e.counter (e.objects a) r
    → IsOwned (store_created a r e).1
unfolding store_created
store_created-IsOwned a r e o room m = make-Owned e.objects e.counter a r o room m

-- Choosing a thread leaves the threads and the counter.
lightest-same :
    (e : Engine)
    → ((get_lightest_thread e).1.objects ≡ e.objects)
      × ((get_lightest_thread e).1.counter ≡ e.counter)
unfolding get_lightest_thread
lightest-same e = elim (Bool-cases e.init_over) [
  | inl over ↦ simp over (refl, refl)
  | inr before ↦ simp before (refl, refl)
]

-- A creation on the chosen thread.
create_on : Option ℕ → ℕ → Option ℕ → Engine → ℕ × Engine
create_on func arg none e = (invalid_id, e)
create_on func arg (some a) e =
    store_created a (Thread.create_chroutine e.counter func arg (e.objects a)) e

create_on-IsOwned :
    (func : Option ℕ) (arg : ℕ) (thrd : Option ℕ) (e : Engine)
    → IsOwned e
    → HasRoom e
    → IsOwned (create_on func arg thrd e).1
unfolding create_on
create_on-IsOwned func arg none e o room = o
create_on-IsOwned func arg (some a) e o room =
    store_created-IsOwned a (Thread.create_chroutine e.counter func arg (e.objects a)) e o room
      (create_chroutine-Makes e.counter func arg (e.objects a))

pub create_chroutine-IsOwned :
    (func : Option ℕ) (arg : ℕ) (e : Engine)
    → IsOwned e
    → HasRoom e
    → IsOwned (create_chroutine func arg e).1
unfolding create_chroutine create_on
create_chroutine-IsOwned func arg e o room =
    let (objects_same, counter_same) = lightest-same e in
    let e' = (get_lightest_thread e).1 in
    let o' : IsOwned e' =
      subst (λ n. Owned e'.objects n) (sym counter_same)
        (subst (λ f. Owned f e.counter) (sym objects_same) o) in
    let made =
      create_on-IsOwned func arg (get_lightest_thread e).0 e' o'
        (subst (λ n. n + 1 < invalid_id) (sym counter_same) room) in
    elim (Option-cases (get_lightest_thread e).0) [
      | inl no_thread ↦ rw (no_thread, create_chroutine) o'
      | inr (a, there) ↦ rw (there, create_chroutine) (rw there at made)
    ]

pub create_main-IsOwned :
    (func : Option ℕ) (arg : ℕ) (e : Engine)
    → IsOwned e
    → HasRoom e
    → IsOwned (create_chroutine_in_mainthread func arg e).1
unfolding create_chroutine_in_mainthread create_on
create_main-IsOwned func arg e o room = elim (Option-cases e.main_thread) [
  | inl no_thread ↦ rw (no_thread, create_chroutine_in_mainthread) o
  | inr (a, there) ↦
      rw (there, create_chroutine_in_mainthread) (create_on-IsOwned func arg (some a) e o room)
]

create_son-IsOwned :
    (self : ℕ) (func : Option ℕ) (arg : ℕ) (e : Engine)
    → IsOwned e
    → HasRoom e
    → IsOwned (create_son self func arg e).1
unfolding create_son create_on
create_son-IsOwned self func arg e o room = elim (Option-cases (get_thread_by_id self e)) [
  | inl no_thread ↦ rw (no_thread, create_son) o
  | inr (a, there) ↦ rw (there, create_son) (create_on-IsOwned func arg (some a) e o room)
]

pub create_son_chroutine-IsOwned :
    (self : ℕ) (func : Option ℕ) (result : SonResult) (arg timeout_ms now : ℕ) (e : Engine)
    → IsOwned e
    → HasRoom e
    → IsOwned (create_son_chroutine self func result arg timeout_ms now e).1
unfolding create_son_chroutine
create_son_chroutine-IsOwned self func result arg timeout_ms now e o room =
    elim (Bool-cases (timeout_ms == 0)) [
      | inl no_wait ↦ simp no_wait (create_son-IsOwned self func 0 e o room)
      | inr waiting ↦ elim (Option-cases (get_thread_by_id self e)) [
        | inl no_thread ↦ simp (waiting, no_thread) o
        | inr (a, there) ↦
            let r = Thread.create_son_chroutine e.counter func result arg (e.objects a) in
            let u = (Thread.wait (pos timeout_ms) now r.thread).1 in
            simp (waiting, there)
              (make-Owned e.objects e.counter a
                (record { id = r.id; counter = r.counter; thread = u }) o room
                (then-Makes e.counter (e.objects a) r r.id u
                  (create_son_chroutine-Makes e.counter func result arg (e.objects a))
                  (wait-KeepsThread (pos timeout_ms) now r.thread)))
      ]
    ]
