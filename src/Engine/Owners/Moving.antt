-- ===== src/Engine/Owners/Moving.antt =====
-- `check_threads` of engin/engine.cpp hands chroutines from one thread to another: each still has one
-- owner.
use chroutine.Prelude.{
  ℕ, ◌≡◌, ◌≢◌, refl, sym, ap, ◌∙◌, subst, ◌⊎◌, inl, inr, true, false, List, [], ◌∷◌, ◌++◌,
  if◌then◌else◌, ◌==◌, ==_iff, arith, Bool-cases,
}
use chroutine.Prelude.Ids.{contains, contains-append, contains-delete, Distinct, delete}
use chroutine.Schedule.{sched}
use chroutine.Schedule.Tables.{ids, IsValid}
use chroutine.Thread.{Thread}
use chroutine.Thread.Move.{move_chroutines_to_thread}
use chroutine.Thread.Move.Conserve.{move_chroutines_to_thread_lem}
use chroutine.Engine.{put_object}
use chroutine.Engine.Blocked.{move_one}
use chroutine.Engine.Blocked.Moves.{move_one-IsHomed}
use chroutine.Engine.Owners.{ids_at, Owned, put_at}

-- Two lists without repetitions and without a common element.
Distinct-join :
    (xs ys : List ℕ)
    → Distinct xs
    → Distinct ys
    → ((i : ℕ) → contains i xs ≡ true → contains i ys ≡ true → ⊥)
    → Distinct (xs ++ ys)
Distinct-join [] ys d e apart = e
Distinct-join (x ∷ xs) ys d e apart = (
  elim (Bool-cases (contains x ys)) [
    | inl there ↦ absurd (apart x (ground arith) there)
    | inr absent ↦ ground (arith, contains-append x xs ys, d.0)
  ],
  Distinct-join xs ys d.1 e (λ i h. apart i (ground arith)),
)

module _ (bad good : ℕ) (objects : ℕ → Thread) (counter : ℕ) (o : Owned objects counter)
    (differ : good ≢ bad) where
  abbrev runs : ℕ
  runs = (objects bad).schedule.running_id

  both_apart : Distinct (ids_at objects good ++ ids_at objects bad)
  both_apart =
      Distinct-join (ids_at objects good) (ids_at objects bad) (o.valid good).synced.distinct
        (o.valid bad).synced.distinct (λ i g b. differ (o.alone good bad i g b))

  abbrev moved : Thread × Thread
  moved = move_chroutines_to_thread (objects bad) (objects good)

  abbrev Moved : Type 0
  Moved =
      (ids (sched moved.0.schedule)
        ≡ (if contains runs (ids_at objects bad) then runs ∷ [] else []))
      × (ids (sched moved.1.schedule) ≡ ids_at objects good ++ delete runs (ids_at objects bad))
      × IsValid moved.0.schedule
      × IsValid moved.1.schedule

  both_moved : Moved
  both_moved =
      let (left, state, right, v, w) =
        move_chroutines_to_thread_lem (objects bad) (objects good)
          (λ e. differ (sym (o.home good) ∙ e ∙ o.home bad)) (o.valid bad) (o.valid good)
          both_apart in
      (left, right, v, w)

  -- Where a chroutine was before: it stays, as the running one where the thread was late, or it goes
  -- from the one thread to the other.
  abbrev Origin : ℕ → ℕ → Type 0
  Origin i x =
      ((contains i (ids_at objects x) ≡ true) × (x ≡ bad → i ≡ runs))
      ⊎ ((x ≡ good) × ((contains i (ids_at objects bad) ≡ true) × (i ≢ runs)))

  left-Origin : (i : ℕ) → contains i (ids (sched moved.0.schedule)) ≡ true → Origin i bad
  left-Origin i h = elim (Bool-cases (contains runs (ids_at objects bad))) [
    | inl there ↦
        let one = left_ids there in
        let same : runs ≡ i = ground (arith, ap (contains i) (sym one) ∙ h) in
        inl (subst (λ k. contains k (ids_at objects bad) ≡ true) same there, λ e. sym same)
    | inr absent ↦ absurd (ground (arith, ap (contains i) (sym (left_none absent)) ∙ h))
  ]
    where
      left_ids :
          contains runs (ids_at objects bad) ≡ true → ids (sched moved.0.schedule) ≡ runs ∷ []
      left_ids there = both_moved.0 ∙ ap (λ b. if b then runs ∷ [] else []) there

      left_none : contains runs (ids_at objects bad) ≡ false → ids (sched moved.0.schedule) ≡ []
      left_none absent = both_moved.0 ∙ ap (λ b. if b then runs ∷ [] else []) absent

  right-Origin : (i : ℕ) → contains i (ids (sched moved.1.schedule)) ≡ true → Origin i good
  right-Origin i h =
      let there : contains i (ids_at objects good ++ delete runs (ids_at objects bad)) ≡ true =
        ap (contains i) (sym both_moved.1) ∙ h in
      let either = contains-append i (ids_at objects good) (delete runs (ids_at objects bad)) in
      let without = contains-delete i runs (ids_at objects bad) (o.valid bad).synced.distinct in
      elim (Bool-cases (contains i (ids_at objects good))) [
        | inl old ↦ inl (old, λ e. absurd (differ e))
        | inr absent ↦ inr (
          refl,
          (
            ground (arith, there, either, without, absent),
            λ e. ground (arith, there, either, without, absent, (==_iff runs i).1 (sym e)),
          ),
        )
      ]

  move_one-Origin :
      (i x : ℕ) → contains i (ids_at (move_one bad good objects) x) ≡ true → Origin i x
  unfolding move_one
  move_one-Origin i x =
      put_at (put_object objects good moved.1) bad moved.0
        (λ b u. contains i (ids (sched u.schedule)) ≡ true → Origin i b) (left-Origin i)
        (λ b not_bad.
          put_at objects good moved.1
            (λ c u. (c == bad) ≡ false → contains i (ids (sched u.schedule)) ≡ true → Origin i c)
            (λ apart. right-Origin i)
            (λ c not_good apart h. inl (h, λ e. absurd (ground (arith, apart, (==_iff c bad).1 e))))
            b not_bad)
        x

  pub differ-Owned : Owned (move_one bad good objects) counter
  unfolding move_one
  differ-Owned = record {
    home = move_one-IsHomed bad good objects o.home;
    counted = o.counted;
    valid =
        put_at (put_object objects good moved.1) bad moved.0 (λ b u. IsValid u.schedule)
          both_moved.2
          (λ b not_bad.
            put_at objects good moved.1 (λ c u. IsValid u.schedule) both_moved.3
              (λ c not_good. o.valid c) b);
    known = λ x i h. elim (move_one-Origin i x h) [
      | inl (old, stays) ↦ o.known x i old
      | inr (at, (old, goes)) ↦ o.known bad i old
    ];
    alone = λ x y i hx hy. elim (move_one-Origin i x hx) [
      | inl (old, stays) ↦ elim (move_one-Origin i y hy) [
        | inl (old', stays') ↦ o.alone x y i old old'
        | inr (at', (old', goes')) ↦ absurd (goes' (stays (o.alone x bad i old old')))
      ]
      | inr (at, (old, goes)) ↦ elim (move_one-Origin i y hy) [
        | inl (old', stays') ↦ absurd (goes (stays' (o.alone y bad i old' old)))
        | inr (at', (old', goes')) ↦ at ∙ sym at'
      ]
    ];
  }
