-- ===== src/Scheduler/Keeps/Picks.antt =====
-- `pick_run_chroutine` of engin/chroutine.cpp brings no chroutine into the tables.
use chroutine.Prelude.{
  ℕ, ◌≡◌, refl, sym, ap, ◌∙◌, inl, inr, [], ◌∷◌, ◌++◌, ◌==◌, Bool-cases, append-nil, append_assoc,
}
use mathlib.Core.List.{map-append}
use chroutine.Chroutine.{Chroutine, running, result_timeout, invalid_id, yield_over}
use chroutine.Schedule.{Schedule, sched, modify_sched, remove_chroutine}
use chroutine.Schedule.Tables.{ids}
use chroutine.Scheduler.{count_down, rewind, resume, pick_from, pick_run_chroutine}
use chroutine.Scheduler.Scan.{nobody, somebody, scan_cases, ids-count_down, rewind_lem}
use chroutine.Scheduler.Pick.{placed, ids-placed, passed_by, pick_from-none, pick_from-some}
use chroutine.Scheduler.Keeps.{
  Keeps, Keeps-refl, Keeps-trans, Keeps-same, modify_sched-Keeps, remove_chroutine-Keeps,
}

-- The choice: the picked node goes to its place, a son that has run out of time goes.
resume-Keeps :
    (c : Chroutine) (s : Schedule) → Keeps (record s { rest = c ∷ s.rest }) (resume c.me c s)
unfolding resume
resume-Keeps c s =
    let son = (yield_over result_timeout c).0 in
    let waiting = record s { rest = c ∷ s.rest } in
    let removed = remove_chroutine son (placed c s) in
    let set = λ (x : Chroutine). record x { state = running } in
    let resumed = modify_sched c.me set removed in
    Keeps-trans waiting (placed c s) (record resumed { running_id = c.me })
      (Keeps-same waiting (placed c s) refl (ids-placed c s))
      (Keeps-trans (placed c s) removed (record resumed { running_id = c.me })
        (remove_chroutine-Keeps son (placed c s))
        (Keeps-trans removed resumed (record resumed { running_id = c.me })
          (modify_sched-Keeps c.me set removed (λ x. refl))
          (Keeps-same resumed (record resumed { running_id = c.me }) refl refl)))

module _ (now : ℕ) (s : Schedule) where
  ids-counted : ids (s.visited ++ count_down now s.rest) ≡ ids (sched s)
  ids-counted =
      map-append (λ x. x.me) s.visited (count_down now s.rest)
      ∙ ap (λ l. ids s.visited ++ l) (ids-count_down now s.rest)
      ∙ sym (map-append (λ x. x.me) s.visited s.rest)

  pick_from-Keeps : Keeps s (pick_from now s).2
  pick_from-Keeps = elim (scan_cases now s.rest) [
    | nobody a e ↦
        let ended = record s { visited = s.visited ++ count_down now s.rest; rest = [] } in
        rw (pick_from-none now s e) (
          Keeps-same s ended refl
            (ap ids (append-nil (s.visited ++ count_down now s.rest)) ∙ ids-counted))
    | somebody front c back split a due e whole ↦
        let at = passed_by now front back s in
        let waiting = record at { rest = c ∷ at.rest } in
        rw (pick_from-some now s front c back e) (
          Keeps-trans s waiting (resume c.me c at)
            (Keeps-same s waiting refl (
              ap ids (
                append_assoc s.visited (count_down now front) (c ∷ count_down now back)
                ∙ ap (λ l. s.visited ++ l) (sym whole))
              ∙ ids-counted))
            (resume-Keeps c at))
  ]

pub pick_run_chroutine-Keeps : (now : ℕ) (s : Schedule) → Keeps s (pick_run_chroutine now s).2
unfolding pick_run_chroutine
pick_run_chroutine-Keeps now s = elim (Bool-cases (s.running_id == invalid_id)) [
  | inr busy ↦ rw busy (Keeps-refl s)
  | inl idle ↦
      let cleared = record s { chroutines_to_free = [] } in
      let kept = rewind_lem cleared in
      rw idle (
        Keeps-trans s (rewind cleared) (pick_from now (rewind cleared)).2
          (Keeps-same s (rewind cleared) kept.2 (ap ids kept.0))
          (pick_from-Keeps now (rewind cleared)))
]
