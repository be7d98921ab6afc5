-- ===== src/Scheduler/Progress.antt =====
-- No chroutine that is due is passed over for long by `pick_run_chroutine` of engin/chroutine.cpp.
use chroutine.Prelude.{
  ℕ, suc, ◌<◌, ◌≡◌, refl, sym, ap, ◌∙◌, subst, ◌⊎◌, inl, inr, Bool, true, false, not, ◌||◌, List,
  [], ◌∷◌, ◌≢◌, ◌++◌, ◌==◌, arith, length, length-append, append_assoc,
}
use chroutine.Prelude.All.{all, all-append}
use chroutine.Prelude.Ids.{contains, Distinct, Distinct-middle, contains-append}
use mathlib.Core.List.{map-append}
use chroutine.Chroutine.{Chroutine, running, invalid_id, yield_over, is_due, result_timeout}
use chroutine.Schedule.{Schedule, sched, modify, modify_sched}
use chroutine.Schedule.Tables.{ids}
use chroutine.Schedule.Nodes.{modify-append, remove_chroutine-absent}
use chroutine.Scheduler.{pass, count_down, rewind, resume, pick_from, pick_run_chroutine}
use chroutine.Scheduler.Scan.{
  Scans, nobody, somebody, scan_cases, pass_cases, ids-count_down, not_due,
}
use chroutine.Scheduler.Inv.{Inv, node_ok}
use chroutine.Scheduler.Pick.{
  round, placed, passed_by, pick_from-some, rest-rewind_at, running-resume, at_rest, ids-placed,
  line, rewind-Inv,
}

-- No father of this node's son has run out of time: `yield_over` names nobody.
abbrev pub no_timeout : Chroutine → Bool
no_timeout c = c.yield_to == 0 || not c.stop_son_when_yield_over

-- A node that is due because its time is up, in a wait with a time limit for its son.
abbrev pub no_late_son : ℕ → Chroutine → Bool
no_late_son now c = not (is_due now c) || no_timeout c

-- The first node that is due stands no later than any other one that is due.
first_due :
    (now : ℕ) (f front : List Chroutine) {c t : Chroutine} {b back : List Chroutine}
    → f ++ c ∷ b ≡ front ++ t ∷ back
    → all (not_due now) f ≡ true
    → is_due now t ≡ true
    → (c ≡ t) ⊎ ((mid : List Chroutine) × (front ≡ f ++ c ∷ mid) × (b ≡ mid ++ t ∷ back))
first_due now [] [] e a d = inl (cc)
first_due now [] (x ∷ front) e a d = inr (front, cc, cc)
first_due now (y ∷ f) [] {t} e a d =
    let same : y ≡ t = cc in let due : is_due now y ≡ true = rw same d in absurd (ground arith)
first_due now (y ∷ f) (x ∷ front) {c} {t} {b} {back} e a d =
    let same : y ≡ x = cc in
    elim (first_due now f front {c = c} {t = t} {b = b} {back = back} (cc) (ground arith) d) [
      | inl at_t ↦ inl at_t
      | inr (mid, whole, later) ↦ inr (mid, cc, later)
    ]

count_down-append :
    (now : ℕ) (xs ys : List Chroutine)
    → count_down now (xs ++ ys) ≡ count_down now xs ++ count_down now ys
unfolding count_down
count_down-append now [] ys = refl
count_down-append now (x ∷ xs) ys = ap (λ l. (pass now x).1 ∷ l) (count_down-append now xs ys)

length-count_down : (now : ℕ) (xs : List Chroutine) → length (count_down now xs) ≡ length xs
unfolding count_down
length-count_down now [] = refl
length-count_down now (x ∷ xs) = ap suc (length-count_down now xs)

length-modify :
    (id : ℕ) (f : Chroutine → Chroutine) (xs : List Chroutine) → length (modify id f xs) ≡ length xs
unfolding modify
length-modify id f [] = refl
length-modify id f (x ∷ xs) = ap suc (length-modify id f xs)

modify-ne :
    (id : ℕ) (f : Chroutine → Chroutine) (xs ys : List Chroutine) (t : Chroutine)
    → t.me ≢ id
    → modify id f (xs ++ t ∷ ys) ≡ modify id f xs ++ t ∷ modify id f ys
unfolding modify
modify-ne id f xs ys t ne =
    modify-append id f xs (t ∷ ys) ∙ ap (λ x. modify id f xs ++ x ∷ modify id f ys) (ground arith)

-- With no son to remove, the nodes behind the picked one stay behind it.
rest-resume :
    (c : Chroutine) (s : Schedule)
    → (yield_over result_timeout c).0 ≡ invalid_id
    → contains invalid_id (ids (sched (placed c s))) ≡ false
    → (resume c.me c s).rest ≡ modify c.me (λ x. record x { state = running }) s.rest
unfolding resume modify_sched
rest-resume c s quiet h =
    ap (λ l. modify c.me (λ x. record x { state = running }) l)
      (rw quiet (remove_chroutine-absent invalid_id (placed c s) h).1)

no_timeout-yield_over :
    (c : Chroutine) → no_timeout c ≡ true → (yield_over result_timeout c).0 ≡ invalid_id
unfolding yield_over
no_timeout-yield_over c h = ground arith

-- No chroutine of the list has the id -1.
contains-invalid :
    (r : ℕ) (cs : List Chroutine) → all (node_ok r) cs ≡ true → contains invalid_id (ids cs) ≡ false
contains-invalid r [] a = refl
contains-invalid r (c ∷ cs) a = ground (arith, contains-invalid r cs)

-- A due node among the ones that are counted down stays, and so does its place.
count_down-due :
    (now : ℕ) (mid back : List Chroutine) (t : Chroutine)
    → is_due now t ≡ true
    → count_down now (mid ++ t ∷ back) ≡ count_down now mid ++ t ∷ count_down now back
unfolding count_down
count_down-due now mid back t due =
    count_down-append now mid (t ∷ back)
    ∙ ap (λ x. count_down now mid ++ x ∷ count_down now back) (ground (arith, pass_cases now t))

-- The nodes behind the picked `c`, among them `t`: they are counted down, and `t` is not `c`.
module _ (now : ℕ) (s : Schedule) (f : List Chroutine) (c : Chroutine) (mid : List Chroutine)
    (t : Chroutine) (back : List Chroutine) (v : Inv s) (due : is_due now t ≡ true)
    (whole : s.rest ≡ f ++ c ∷ (mid ++ t ∷ back)) where
  shape : ids (sched s) ≡ ids (s.visited ++ f) ++ c.me ∷ ids (mid ++ t ∷ back)
  shape =
      ap (λ l. ids (s.visited ++ l)) whole
      ∙ ap ids (sym (append_assoc s.visited f (c ∷ (mid ++ t ∷ back))))
      ∙ map-append (λ x. x.me) (s.visited ++ f) (c ∷ (mid ++ t ∷ back))

  apart : t.me ≢ c.me
  apart e = absurd (
      ground (
        arith,
        Distinct-middle c.me (ids (s.visited ++ f)) (ids (mid ++ t ∷ back))
            (subst Distinct shape v.valid.synced.distinct),
        map-append (λ x. x.me) mid (t ∷ back),
        contains-append c.me (ids mid) (ids (t ∷ back)),
      ))

  abbrev behind : Schedule
  behind = passed_by now f (mid ++ t ∷ back) s

  rest-behind :
      (yield_over result_timeout c).0 ≡ invalid_id
      → (resume c.me c behind).rest
        ≡ modify c.me (λ x. record x { state = running }) (count_down now mid)
          ++ t ∷ modify c.me (λ x. record x { state = running }) (count_down now back)
  rest-behind quiet =
      rest-resume c behind quiet no_invalid
      ∙ ap (λ l. modify c.me (λ x. record x { state = running }) l)
          (count_down-due now mid back t due)
      ∙ modify-ne c.me (λ x. record x { state = running }) (count_down now mid)
          (count_down now back) t apart
    where
      same_ids : ids (line c behind) ≡ ids (sched s)
      same_ids = rw shape (simp (map-append, ids-count_down) refl)

      no_invalid : contains invalid_id (ids (sched (placed c behind))) ≡ false
      no_invalid =
          rw (ids-placed c behind, same_ids) (contains-invalid s.running_id (sched s) v.nodes)

-- The part of a round that stands before a node.
abbrev pub Ahead : Schedule → Chroutine → ℕ → Type 0
Ahead s t n =
    (front : List Chroutine) × (back : List Chroutine) × (s.rest ≡ front ++ t ∷ back)
    × (length front < n)

-- In well-formed tables of a thread that runs none: a chroutine that is due, with `n` others before it
-- in the round, none of which is due because a wait for its son has run out of time, is resumed by
-- `pick_run_chroutine`, or stays in the rest of the round, unchanged and with fewer than `n` before it.
pub pick_run_chroutine_progress :
    (now : ℕ) (s : Schedule) (front : List Chroutine) (t : Chroutine) (back : List Chroutine)
    → Inv s
    → s.running_id ≡ invalid_id
    → round s ≡ front ++ t ∷ back
    → is_due now t ≡ true
    → all (no_late_son now) front ≡ true
    → let s' = (pick_run_chroutine now s).2 in (s'.running_id ≡ t.me) ⊎ Ahead s' t (length front)
unfolding pick_run_chroutine
pick_run_chroutine_progress now s front t back v idle e due quiet =
    rw (at_rest s idle) (picked (scan_cases now s1.rest))
  where
    cleared : Schedule
    cleared = record s { chroutines_to_free = [] }

    s1 : Schedule
    s1 = rewind cleared

    at_round : s1.rest ≡ round s
    at_round = rest-rewind_at s.rest cleared refl

    from : s1.rest ≡ front ++ t ∷ back
    from = at_round ∙ e

    quiet_at :
        (f mid : List Chroutine) (c : Chroutine)
        → front ≡ f ++ c ∷ mid
        → is_due now c ≡ true
        → no_timeout c ≡ true
    quiet_at f mid c split due_c = ground (
      arith,
      due_c,
      all-append (no_late_son now) f (c ∷ mid),
      subst (λ l. all (no_late_son now) l ≡ true) split quiet,
    )

    picked :
        Scans now s1.rest
        → ((pick_from now s1).2.running_id ≡ t.me) ⊎ Ahead (pick_from now s1).2 t (length front)
    picked (nobody a _) = absurd (
        ground (
          arith,
          all-append (not_due now) front (t ∷ back),
          subst (λ l. all (not_due now) l ≡ true) from a,
        ))
    picked (somebody f c b split a due_c found _) =
        elim (first_due now f front {c = c} {t = t} {b = b} {back = back} (sym split ∙ from) a
          due) [
            | inl at_t ↦ inl (
                ap (λ r. r.2.running_id) (pick_from-some now s1 f c b found)
                ∙ running-resume c.me c (passed_by now f b s1)
                ∙ ap (λ x. x.me) at_t)
            | inr (mid, ahead, later) ↦ inr (
              modify c.me (λ x. record x { state = running }) (count_down now mid),
              modify c.me (λ x. record x { state = running }) (count_down now back),
              ap (λ r. r.2.rest) (pick_from-some now s1 f c b found)
                  ∙ ap (λ l. (resume c.me c (passed_by now f l s1)).rest) later
                  ∙ rest-behind now s1 f c mid t back (rewind-Inv v) due
                      (split ∙ ap (λ l. f ++ c ∷ l) later)
                      (no_timeout-yield_over c (quiet_at f mid c ahead due_c)),
              omega (
                arith,
                length-modify c.me (λ x. record x { state = running }) (count_down now mid),
                length-count_down now mid,
                ap length ahead,
                length-append f (c ∷ mid),
              ),
            )
          ]
