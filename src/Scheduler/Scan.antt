-- ===== src/Scheduler/Scan.antt =====
-- The loop of `pick_run_chroutine` in engin/chroutine.cpp: which node it picks, and what it does to
-- the others.
use chroutine.Prelude.{
  ℕ, ◌-◌, ◌≡◌, refl, sym, ap, ◌⊎◌, inl, inr, Bool, true, false, not, none, some, List, [], ◌∷◌,
  ◌++◌, arith, append-nil,
}
use chroutine.Prelude.All.{all}
use chroutine.Chroutine.{Chroutine, wait, is_due}
use chroutine.Schedule.{Schedule, sched}
use chroutine.Schedule.Tables.{ids}
use chroutine.Scheduler.{pass, count_down, scan, rewind}

abbrev pub not_due : ℕ → Chroutine → Bool
not_due now c = not (is_due now c)

-- The test of the loop is `is_due`, and it leaves a node that is due as it was.
pub pass_cases :
    (now : ℕ) (c : Chroutine)
    → ((is_due now c ≡ true) × (pass now c ≡ (false, c)))
      ⊎ ((not_due now c ≡ true) × ((pass now c).0 ≡ true))
unfolding pass wait
pass_cases now c = ground arith

-- A pass counts a frame down, and changes nothing else.
pub pass-frame :
    (now : ℕ) (c : Chroutine)
    → ((pass now c).1 ≡ c) ⊎ ((pass now c).1 ≡ record c { yield_wait = c.yield_wait - 1 })
unfolding pass wait
pass-frame now c = ground arith

pub ids-count_down : (now : ℕ) (cs : List Chroutine) → ids (count_down now cs) ≡ ids cs
unfolding count_down
ids-count_down now [] = refl
ids-count_down now (c ∷ cs) = ground (arith, pass-frame now c, ids-count_down now cs)

pub all-count_down :
    (now : ℕ) (p q : Chroutine → Bool)
    → ((c : Chroutine) → p c ≡ true → q (pass now c).1 ≡ true)
    → (cs : List Chroutine) → all p cs ≡ true
    → all q (count_down now cs) ≡ true
unfolding count_down
all-count_down now p q h [] a = refl
all-count_down now p q h (c ∷ cs) a = ground (arith, h c, all-count_down now p q h cs)

-- The loop picks nobody, or the first node that is due.
pub data Scans (now : ℕ) (cs : List Chroutine) : Type 0 where
  nobody :
      all (not_due now) cs ≡ true
      → scan now cs ≡ record { passed = count_down now cs; picked = none }
      → Scans now cs
  somebody :
      (front : List Chroutine) (c : Chroutine) (back : List Chroutine)
      → cs ≡ front ++ c ∷ back
      → all (not_due now) front ≡ true
      → is_due now c ≡ true
      → scan now cs
        ≡ record { passed = count_down now front; picked = some (c, count_down now back) }
      → count_down now cs ≡ count_down now front ++ c ∷ count_down now back
      → Scans now cs

scan-cons :
    (now : ℕ) (c : Chroutine) (cs : List Chroutine)
    → not_due now c ≡ true
    → (pass now c).0 ≡ true
    → Scans now cs
    → Scans now (c ∷ cs)
unfolding scan count_down
scan-cons now c cs n w (nobody a e) = nobody (ground arith) (ground arith)
scan-cons now c cs n w (somebody front p back split a due e whole) =
    somebody (c ∷ front) p back (ap (λ l. c ∷ l) split) (ground arith) due (ground arith)
      (ap (λ l. (pass now c).1 ∷ l) whole)

pub scan_cases : (now : ℕ) (cs : List Chroutine) → Scans now cs
unfolding scan count_down
scan_cases now [] = nobody refl refl
scan_cases now (c ∷ cs) = elim (pass_cases now c) [
  | inl (due, e) ↦ somebody [] c cs refl refl due (ground arith) (ground arith)
  | inr (n, w) ↦ scan-cons now c cs n w (scan_cases now cs)
]

rewind_at :
    (r : List Chroutine) (s : Schedule)
    → r ≡ s.rest
    → (sched (rewind s) ≡ sched s)
      × ((rewind s).running_id ≡ s.running_id)
      × ((rewind s).chroutines_map ≡ s.chroutines_map)
unfolding rewind
rewind_at [] s e = rw (← e, rewind) (sym (append-nil s.visited), refl, refl)
rewind_at (c ∷ r) s e = rw (← e, rewind) (ap (λ l. s.visited ++ l) (sym e), refl, refl)

-- Starting again at the beginning keeps the list, the map and the running chroutine.
pub rewind_lem :
    (s : Schedule)
    → (sched (rewind s) ≡ sched s)
      × ((rewind s).running_id ≡ s.running_id)
      × ((rewind s).chroutines_map ≡ s.chroutines_map)
rewind_lem s = rewind_at s.rest s refl
