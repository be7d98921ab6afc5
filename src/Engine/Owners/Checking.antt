-- ===== src/Engine/Owners/Checking.antt =====
-- `check_threads` of engin/engine.cpp leaves each chroutine with one owner.
use chroutine.Prelude.{
  ℕ, suc, ◌%◌, ◌≡◌, refl, sym, ap, ◌∙◌, subst, inl, inr, Bool, List, [], ◌∷◌, length, get_or,
  if◌then◌else◌, ◌==◌, ==_iff, arith, Bool-cases,
}
use chroutine.Scheduler.Keeps.{Keeps-refl}
use chroutine.Thread.{Thread, running}
use chroutine.Thread.Move.{move_chroutines_to_thread}
use chroutine.Thread.Move.Apart.{move_self}
use chroutine.Thread.Keeps.{KeepsThread}
use chroutine.Engine.{Engine, put_object}
use chroutine.Engine.Blocked.{
  Sorted, sort_one, sort, unsorted, move_one, move_all, reassign, check_threads, is_late,
  is_state_running, is_state_blocking,
}
use chroutine.Engine.Owners.{Owned, put-Owned}
use chroutine.Engine.Owners.Moving.{differ-Owned}

same-KeepsThread : (t u : Thread) → u ≡ t → KeepsThread t u
same-KeepsThread t u e = subst (λ w. KeepsThread t w) (sym e) (refl, Keeps-refl t.schedule)

self-Owned :
    (a : ℕ) (objects : ℕ → Thread) (counter : ℕ)
    → Owned objects counter
    → Owned (move_one a a objects) counter
unfolding move_one
self-Owned a objects counter o =
    let unmoved =
      move_self (objects a) (objects a) ((==_iff (objects a).address (objects a).address).1 refl) in
    let put_back = put_object objects a (move_chroutines_to_thread (objects a) (objects a)).1 in
    let at =
      ap
        (λ (b : Bool).
          if b then (move_chroutines_to_thread (objects a) (objects a)).1 else objects a)
        ((==_iff a a).1 refl) in
    put-Owned put_back a (move_chroutines_to_thread (objects a) (objects a)).0 counter
      (put-Owned objects a (move_chroutines_to_thread (objects a) (objects a)).1 counter o
        (same-KeepsThread (objects a) _ (ap (λ r. r.1) unmoved)))
      (same-KeepsThread (put_back a) _ (ap (λ r. r.0) unmoved ∙ sym (at ∙ ap (λ r. r.1) unmoved)))

move_one-Owned :
    (bad good : ℕ) (objects : ℕ → Thread) (counter : ℕ)
    → Owned objects counter
    → Owned (move_one bad good objects) counter
move_one-Owned bad good objects counter o = elim (Bool-cases (good == bad)) [
  | inl same ↦
      subst (λ g. Owned (move_one bad g objects) counter) (sym ((==_iff good bad).0 same))
        (self-Owned bad objects counter o)
  | inr differs ↦
      differ-Owned bad good objects counter o
        (λ e. absurd (ground (arith, differs, (==_iff good bad).1 e)))
]

move_all-Owned :
    (bads goods : List ℕ) (index : ℕ) (objects : ℕ → Thread) (counter : ℕ)
    → Owned objects counter
    → Owned (move_all bads goods index objects) counter
unfolding move_all
move_all-Owned [] goods index objects counter o = o
move_all-Owned (bad ∷ bads) goods index objects counter o =
    let good = get_or goods (index % length goods) 0 in
    move_all-Owned bads goods (suc index) (move_one bad good objects) counter
      (move_one-Owned bad good objects counter o)

reassign-Owned :
    (goods bads : List ℕ) (objects : ℕ → Thread) (counter : ℕ)
    → Owned objects counter
    → Owned (reassign goods bads objects) counter
unfolding reassign
reassign-Owned [] bads objects counter o = o
reassign-Owned (good ∷ goods) bads objects counter o =
    move_all-Owned bads (good ∷ goods) 0 objects counter o

sort_one-Owned :
    (now a counter : ℕ) (s : Sorted)
    → Owned s.objects counter
    → Owned (sort_one now a s).objects counter
unfolding sort_one
sort_one-Owned now a counter s o = elim (Bool-cases (is_late now (s.objects a))) [
  | inl late ↦ elim (Bool-cases (is_state_running (s.objects a).state)) [
    | inl runs ↦ simp (late, runs) o
    | inr other ↦ simp (late, other) o
  ]
  | inr on_time ↦ elim (Bool-cases (is_state_blocking (s.objects a).state)) [
    | inr other ↦ simp (on_time, other) o
    | inl blocks ↦
        simp (on_time, blocks)
          (put-Owned s.objects a (record (s.objects a) { state = running }) counter o
            (refl, Keeps-refl (s.objects a).schedule))
  ]
]

sort-Owned :
    (now counter : ℕ) (pool : List (ℕ × ℕ)) (s : Sorted)
    → Owned s.objects counter
    → Owned (sort now pool s).objects counter
unfolding sort
sort-Owned now counter [] s o = o
sort-Owned now counter ((id, a) ∷ pool) s o =
    sort-Owned now counter pool (sort_one now a s) (sort_one-Owned now a counter s o)

pub check_threads-Owned :
    (now : ℕ) (e : Engine)
    → Owned e.objects e.counter
    → Owned (check_threads now e).objects (check_threads now e).counter
unfolding check_threads
check_threads-Owned now e o =
    let s = sort now e.pool (unsorted e) in
    reassign-Owned s.goods s.bads s.objects e.counter
      (sort-Owned now e.counter e.pool (unsorted e) o)
