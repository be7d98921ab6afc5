-- ===== src/Scheduler/Pick.antt =====
-- `pick_run_chroutine` of engin/chroutine.cpp: whom it resumes, and that it keeps the invariant.
use chroutine.Prelude.{
  ℕ, ◌≤◌, ◌≡◌, refl, sym, ap, ◌∙◌, subst, ◌⊎◌, inl, inr, Bool, true, false, not, ◌&&◌, ◌||◌, none,
  some, List, [], ◌∷◌, ◌++◌, ◌==◌, arith, Bool-cases, append_assoc, append-nil, ==_iff,
}
use chroutine.Prelude.All.{all, all-append, all_both}
use chroutine.Prelude.Ids.{contains, Distinct, Distinct-middle}
use mathlib.Core.List.{map-append}
use chroutine.Chroutine.{Chroutine, running, invalid_id, yield_over, result_timeout}
use chroutine.Schedule.{Schedule, sched, remove_chroutine}
use chroutine.Schedule.Tables.{ids, IsSynced, IsValid, remove_chroutine-IsValid}
use chroutine.Schedule.Nodes.{
  sched-modify_sched, modify_sched-IsValid, all-modify, all-remove_chroutine, all-ne-contains,
}
use chroutine.Scheduler.{count_down, scan, rewind, resume, settle, pick_from, pick_run_chroutine}
use chroutine.Scheduler.Scan.{
  Scans, nobody, somebody, scan_cases, ids-count_down, all-count_down, pass-frame, rewind_lem,
  not_due,
}
use chroutine.Scheduler.Inv.{Inv, node_ok, yield_over-frame}

-- A chroutine that is due, between nodes none of which runs, becomes the one that runs.
module _ (c : Chroutine) (s : Schedule) where
  abbrev pub line : List Chroutine
  line = s.visited ++ c ∷ s.rest

  abbrev pub woken : Chroutine
  woken = (yield_over result_timeout c).1

  abbrev pub placed : Schedule
  placed = record s { visited = s.visited ++ woken ∷ [] }

  -- Only the picked node has its id, and it has no frames left.
  abbrev only_picked : Chroutine → Bool
  only_picked x = node_ok invalid_id x && (not (x.me == c.me) || x.yield_wait == 0)

  sched-placed : sched placed ≡ s.visited ++ woken ∷ s.rest
  sched-placed = append_assoc s.visited (woken ∷ []) s.rest

  pub ids-placed : ids (sched placed) ≡ ids line
  ids-placed =
      ap ids sched-placed
      ∙ map-append (λ x. x.me) s.visited (woken ∷ s.rest)
      ∙ ap (λ i. ids s.visited ++ i ∷ ids s.rest) (yield_over-frame result_timeout c).0
      ∙ sym (map-append (λ x. x.me) s.visited (c ∷ s.rest))

  placed-all :
      Distinct (ids line)
      → all (node_ok invalid_id) line ≡ true
      → c.yield_wait ≡ 0
      → all only_picked (sched placed) ≡ true
  placed-all d a w = rw sched-placed (
      ground (
        arith,
        all-append only_picked s.visited (woken ∷ s.rest),
        all-append (node_ok invalid_id) s.visited (c ∷ s.rest),
        others s.visited,
        others s.rest,
        Distinct-middle c.me (ids s.visited) (ids s.rest),
        yield_over-frame result_timeout c,
        rw map-append at d,
      ))
    where
      others :
          (cs : List Chroutine)
          → all (node_ok invalid_id) cs ≡ true
          → contains c.me (ids cs) ≡ false
          → all only_picked cs ≡ true
      others cs ok apart =
          all_both (node_ok invalid_id) (λ x. not (x.me == c.me)) only_picked
            (λ x a b. ground arith) cs ok (all-ne-contains c.me cs apart)

  resume-Inv :
      IsSynced s.chroutines_map (ids line)
      → all (node_ok invalid_id) line ≡ true
      → c.yield_wait ≡ 0
      → Inv (resume c.me c s)
  unfolding resume
  resume-Inv v a w = record {
    valid = record {
      synced =
          (modify_sched-IsValid c.me (λ x. record x { state = running }) (λ x. refl)
            (remove_chroutine-IsValid son placed-IsValid)).synced;
    };
    nodes =
        rw
          (sched-modify_sched c.me (λ x. record x { state = running })
            (remove_chroutine son placed))
          (all-modify c.me (λ x. record x { state = running }) only_picked (node_ok c.me)
            (λ x h. ground arith) (sched (remove_chroutine son placed))
            (all-remove_chroutine only_picked son placed (placed-all v.distinct a w)));
  }
    where
      son : ℕ
      son = (yield_over result_timeout c).0

      placed-IsValid : IsValid placed
      placed-IsValid = record { synced = rw ids-placed v }

-- A pass keeps the test of a node that does not run.
counted :
    (now : ℕ) (cs : List Chroutine)
    → all (node_ok invalid_id) cs ≡ true
    → all (node_ok invalid_id) (count_down now cs) ≡ true
counted now =
    all-count_down now (node_ok invalid_id) (node_ok invalid_id)
      (λ c h. ground (arith, pass-frame now c))

-- The tables when the loop has picked the node between `front` and `back`.
abbrev pub passed_by : ℕ → List Chroutine → List Chroutine → Schedule → Schedule
passed_by now front back s = record s {
  visited = s.visited ++ count_down now front;
  rest = count_down now back;
}

pub pick_from-none :
    (now : ℕ) (s : Schedule)
    → scan now s.rest ≡ record { passed = count_down now s.rest; picked = none }
    → pick_from now s
      ≡ (0, false, record s { visited = s.visited ++ count_down now s.rest; rest = [] })
unfolding pick_from settle
pick_from-none now s e = ap (λ sc. settle sc s) e

pub pick_from-some :
    (now : ℕ) (s : Schedule) (front : List Chroutine) (c : Chroutine) (back : List Chroutine)
    → scan now s.rest
      ≡ record { passed = count_down now front; picked = some (c, count_down now back) }
    → pick_from now s ≡ (1, true, resume c.me c (passed_by now front back s))
unfolding pick_from settle
pick_from-some now s front c back e = ap (λ sc. settle sc s) e

-- The list once the loop has counted down its nodes.
abbrev counted_list : ℕ → Schedule → List Chroutine
counted_list now s = s.visited ++ count_down now s.rest

module _ (now : ℕ) (s : Schedule) (idle : s.running_id ≡ invalid_id) (v : Inv s) where
  ids-counted_list : ids (counted_list now s) ≡ ids (sched s)
  ids-counted_list =
      map-append (λ x. x.me) s.visited (count_down now s.rest)
      ∙ ap (λ l. ids s.visited ++ l) (ids-count_down now s.rest)
      ∙ sym (map-append (λ x. x.me) s.visited s.rest)

  counted_list-IsSynced : IsSynced s.chroutines_map (ids (counted_list now s))
  counted_list-IsSynced = rw ids-counted_list v.valid.synced

  counted_list-all : all (node_ok invalid_id) (counted_list now s) ≡ true
  counted_list-all = ground (
    arith,
    all-append (node_ok invalid_id) s.visited (count_down now s.rest),
    all-append (node_ok invalid_id) s.visited s.rest,
    counted now s.rest,
    subst (λ r. all (node_ok r) (sched s) ≡ true) idle v.nodes,
  )

  pick_from-Inv : Inv (pick_from now s).2
  pick_from-Inv = elim (scan_cases now s.rest) [
    | nobody a e ↦ rw (pick_from-none now s e) (record {
      valid = record { synced = rw append-nil counted_list-IsSynced };
      nodes = rw (append-nil, idle) counted_list-all;
    })
    | somebody front c back split a due e whole ↦
        let at_c : counted_list now s
            ≡ (s.visited ++ count_down now front) ++ c ∷ count_down now back =
          ap (λ l. s.visited ++ l) whole
          ∙ sym (append_assoc s.visited (count_down now front) (c ∷ count_down now back)) in
        rw (pick_from-some now s front c back e) (
          resume-Inv c (passed_by now front back s)
            (subst (λ l. IsSynced s.chroutines_map (ids l)) at_c counted_list-IsSynced)
            (subst (λ l. all (node_ok invalid_id) l ≡ true) at_c counted_list-all) (ground arith))
  ]

-- The tables as the loop of `pick_run_chroutine` finds them.
pub rewind-Inv : {s : Schedule} → Inv s → Inv (rewind (record s { chroutines_to_free = [] }))
rewind-Inv {s} v = record {
  valid = record { synced = rw (kept.0, kept.2) v.valid.synced };
  nodes = rw (kept.0, kept.1) v.nodes;
}
  where
    cleared : Schedule
    cleared = record s { chroutines_to_free = [] }

    kept :
        (sched (rewind cleared) ≡ sched s)
        × ((rewind cleared).running_id ≡ s.running_id)
        × ((rewind cleared).chroutines_map ≡ s.chroutines_map)
    kept = rewind_lem cleared

-- Choosing the next chroutine keeps the invariant.
pub pick_run_chroutine-Inv : (now : ℕ) {s : Schedule} → Inv s → Inv (pick_run_chroutine now s).2
unfolding pick_run_chroutine
pick_run_chroutine-Inv now {s} v = elim (Bool-cases (s.running_id == invalid_id)) [
  | inr busy ↦ rw busy v
  | inl idle ↦ rw idle (
      pick_from-Inv now (rewind (record s { chroutines_to_free = [] }))
        ((rewind_lem (record s { chroutines_to_free = [] })).1
          ∙ (==_iff s.running_id invalid_id).0 idle)
        (rewind-Inv v))
]

-- The nodes that the loop goes through: those from `sched_iter` on, or all from the beginning.
abbrev pub round : Schedule → List Chroutine
round s = elim s.rest [ [] ↦ s.visited | _ ↦ s.rest ]

pub rest-rewind_at : (r : List Chroutine) (s : Schedule) → r ≡ s.rest → (rewind s).rest ≡ round s
unfolding rewind
rest-rewind_at [] s e = rw (← e, rewind, round)
rest-rewind_at (c ∷ r) s e = rw (← e, rewind, round)

-- How a choice at the time `now` among the nodes of `l` comes out.
abbrev pub Resumes : ℕ → List Chroutine → ℕ × Bool × Schedule → Type 0
Resumes now l (n, switched, s') =
    ((all (not_due now) l ≡ true) × ((n ≡ 0) × (switched ≡ false) × (s'.running_id ≡ invalid_id)))
    ⊎ ((front : List Chroutine) × (c : Chroutine) × (back : List Chroutine) × (l
          ≡ front ++ c ∷ back)
        × (all (not_due now) front ≡ true)
        × ((c.moved ≡ false) × (c.yield_wait ≡ 0) × (c.yield_to ≤ now))
        × ((n ≡ 1) × (switched ≡ true) × (s'.running_id ≡ c.me)))

pub running-resume : (id : ℕ) (c : Chroutine) (s : Schedule) → (resume id c s).running_id ≡ id
unfolding resume
running-resume id c s = refl

pub at_rest : (s : Schedule) → s.running_id ≡ invalid_id → (s.running_id == invalid_id) ≡ true
at_rest s e = (==_iff s.running_id invalid_id).1 e

-- A thread that runs no chroutine resumes the first one of the round that is due, which is then in
-- no wait, and the result is 1; if none is due, it runs none, and the result is 0.
pub pick_run_chroutine_lem :
    (now : ℕ) (s : Schedule)
    → s.running_id ≡ invalid_id
    → Resumes now (round s) (pick_run_chroutine now s)
unfolding pick_run_chroutine
pick_run_chroutine_lem now s idle =
    rw (at_rest s idle) (picked (scan_cases now (rewind cleared).rest))
  where
    cleared : Schedule
    cleared = record s { chroutines_to_free = [] }

    from : (rewind cleared).rest ≡ round s
    from = rest-rewind_at s.rest cleared refl

    picked :
        Scans now (rewind cleared).rest → Resumes now (round s) (pick_from now (rewind cleared))
    picked (nobody a e) = inl (
      subst (λ l. all (not_due now) l ≡ true) from a,
      rw (pick_from-none now (rewind cleared) e) (refl, refl, (rewind_lem cleared).1 ∙ idle),
    )
    picked (somebody front c back split a due e whole) = inr (
      front,
      c,
      back,
      sym from ∙ split,
      a,
      ground arith,
      rw (pick_from-some now (rewind cleared) front c back e)
          (refl, refl, running-resume c.me c (passed_by now front back (rewind cleared))),
    )
