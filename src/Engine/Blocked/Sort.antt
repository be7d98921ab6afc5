-- ===== src/Engine/Blocked/Sort.antt =====
-- How `check_threads` of engin/engine.cpp sorts the pool, and what follows for a thread that is late.
use chroutine.Prelude.{
  ℕ, ◌<◌, ◌≡◌, refl, sym, ap, ◌∙◌, subst, ◌⊎◌, inl, inr, Bool, true, false, not, List, [], ◌∷◌,
  ◌++◌, map, length, append_assoc, append-nil, ◌==◌, ==_iff, arith, Bool-cases,
}
use chroutine.Prelude.All.{all, all-append}
use chroutine.Prelude.Ids.{contains, Distinct, Distinct-drop, contains-append}
use chroutine.Thread.{Thread, running}
use chroutine.Thread.Move.Apart.{left}
use chroutine.Engine.{Engine, put_object}
use chroutine.Engine.Blocked.{
  is_late, is_state_running, Sorted, sort_one, sort, move_all, reassign, unsorted, check_threads,
}
use chroutine.Engine.Blocked.Moves.{IsHomed, move_all-left}

abbrev pub addresses : List (ℕ × ℕ) → List ℕ
addresses pool = map (λ p. p.1) pool

sort_one-cases :
    (now a : ℕ) (s : Sorted)
    → ((is_late now (s.objects a) ≡ true)
        × (is_state_running (s.objects a).state ≡ true)
        × (sort_one now a s ≡ record s { bads = s.bads ++ a ∷ [] }))
      ⊎ ((is_late now (s.objects a) ≡ true)
          × (is_state_running (s.objects a).state ≡ false)
          × (sort_one now a s ≡ s))
      ⊎ ((is_late now (s.objects a) ≡ false)
          × (sort_one now a s ≡ record s {
            objects = put_object s.objects a (record (s.objects a) { state = running });
          }))
      ⊎ ((is_late now (s.objects a) ≡ false)
          × (sort_one now a s ≡ record s { goods = s.goods ++ a ∷ [] }))
unfolding sort_one
sort_one-cases now a s = ground arith

module _ (now : ℕ) (late : ℕ → Bool) where
  record IsSorting (s : Sorted) : Type 0 where
    pub home : IsHomed s.objects
    pub times : (b : ℕ) → is_late now (s.objects b) ≡ late b
    pub on_time : all (λ g. not (late g)) s.goods ≡ true

  sort_one-IsSorting : (a : ℕ) (s : Sorted) → IsSorting s → IsSorting (sort_one now a s)
  sort_one-IsSorting a s v = elim (sort_one-cases now a s) [
    | inl (_, _, e) ↦
        subst IsSorting (sym e) (record { home = v.home; times = v.times; on_time = v.on_time })
    | inr (inl (_, _, e)) ↦ subst IsSorting (sym e) v
    | inr (inr (inl (_, e))) ↦ subst IsSorting (sym e) (record {
      home = λ x. ground (arith, v.home x, v.home a);
      times = λ x. ground (arith, v.times x, v.times a);
      on_time = v.on_time;
    })
    | inr (inr (inr (quick, e))) ↦ subst IsSorting (sym e) (record {
      home = v.home;
      times = v.times;
      on_time =
          ground
            (arith, all-append (λ g. not (late g)) s.goods (a ∷ []), v.on_time, v.times a, quick);
    })
  ]

  -- A thread that is late is not changed.
  sort_one-late :
      (a x : ℕ) (s : Sorted)
      → IsSorting s
      → late x ≡ true
      → (sort_one now a s).objects x ≡ s.objects x
  sort_one-late a x s v h = elim (sort_one-cases now a s) [
    | inl (_, _, e) ↦ ap (λ r. r.objects x) e
    | inr (inl (_, _, e)) ↦ ap (λ r. r.objects x) e
    | inr (inr (inl (quick, e))) ↦
        ap (λ r. r.objects x) e ∙ ground (arith, v.times x, v.times a, quick, h)
    | inr (inr (inr (_, e))) ↦ ap (λ r. r.objects x) e
  ]

  sort_one-Distinct :
      (a : ℕ) (s : Sorted) (rest : List ℕ)
      → Distinct (s.bads ++ a ∷ rest)
      → Distinct ((sort_one now a s).bads ++ rest)
  sort_one-Distinct a s rest d = elim (sort_one-cases now a s) [
    | inl (_, _, e) ↦
        subst (λ r. Distinct (r.bads ++ rest)) (sym e)
          (subst Distinct (sym (append_assoc s.bads (a ∷ []) rest)) d)
    | inr (inl (_, _, e)) ↦
        subst (λ r. Distinct (r.bads ++ rest)) (sym e) (Distinct-drop a s.bads rest d)
    | inr (inr (inl (_, e))) ↦
        subst (λ r. Distinct (r.bads ++ rest)) (sym e) (Distinct-drop a s.bads rest d)
    | inr (inr (inr (_, e))) ↦
        subst (λ r. Distinct (r.bads ++ rest)) (sym e) (Distinct-drop a s.bads rest d)
  ]

  sort_one-keeps :
      (a x : ℕ) (s : Sorted) → contains x s.bads ≡ true → contains x (sort_one now a s).bads ≡ true
  sort_one-keeps a x s h = elim (sort_one-cases now a s) [
    | inl (_, _, e) ↦
        ap (λ r. contains x r.bads) e ∙ ground (arith, contains-append x s.bads (a ∷ []), h)
    | inr (inl (_, _, e)) ↦ ap (λ r. contains x r.bads) e ∙ h
    | inr (inr (inl (_, e))) ↦ ap (λ r. contains x r.bads) e ∙ h
    | inr (inr (inr (_, e))) ↦ ap (λ r. contains x r.bads) e ∙ h
  ]

  sort_one-bad :
      (a : ℕ) (s : Sorted)
      → IsSorting s
      → late a ≡ true
      → is_state_running (s.objects a).state ≡ true
      → contains a (sort_one now a s).bads ≡ true
  sort_one-bad a s v h run = elim (sort_one-cases now a s) [
    | inl (_, _, e) ↦
        ap (λ r. contains a r.bads) e ∙ ground (arith, contains-append a s.bads (a ∷ []))
    | inr (inl (_, idle, _)) ↦ absurd (ground arith)
    | inr (inr (inl (quick, _))) ↦ absurd (ground (arith, v.times a))
    | inr (inr (inr (quick, _))) ↦ absurd (ground (arith, v.times a))
  ]

  sort-IsSorting : (pool : List (ℕ × ℕ)) (s : Sorted) → IsSorting s → IsSorting (sort now pool s)
  unfolding sort
  sort-IsSorting [] s v = v
  sort-IsSorting ((id, a) ∷ pool) s v =
      sort-IsSorting pool (sort_one now a s) (sort_one-IsSorting a s v)

  sort-late :
      (pool : List (ℕ × ℕ)) (x : ℕ) (s : Sorted)
      → IsSorting s
      → late x ≡ true
      → (sort now pool s).objects x ≡ s.objects x
  unfolding sort
  sort-late [] x s v h = refl
  sort-late ((id, a) ∷ pool) x s v h =
      sort-late pool x (sort_one now a s) (sort_one-IsSorting a s v) h ∙ sort_one-late a x s v h

  sort-Distinct :
      (pool : List (ℕ × ℕ)) (s : Sorted)
      → Distinct (s.bads ++ addresses pool)
      → Distinct (sort now pool s).bads
  unfolding sort
  sort-Distinct [] s d = subst Distinct (append-nil s.bads) d
  sort-Distinct ((id, a) ∷ pool) s d =
      sort-Distinct pool (sort_one now a s) (sort_one-Distinct a s (addresses pool) d)

  sort-keeps :
      (pool : List (ℕ × ℕ)) (x : ℕ) (s : Sorted)
      → contains x s.bads ≡ true
      → contains x (sort now pool s).bads ≡ true
  unfolding sort
  sort-keeps [] x s h = h
  sort-keeps ((id, a) ∷ pool) x s h = sort-keeps pool x (sort_one now a s) (sort_one-keeps a x s h)

  sort-bad :
      (pool : List (ℕ × ℕ)) (x : ℕ) (s : Sorted)
      → IsSorting s
      → late x ≡ true
      → is_state_running (s.objects x).state ≡ true
      → contains x (addresses pool) ≡ true
      → contains x (sort now pool s).bads ≡ true
  unfolding sort
  sort-bad [] x s v h run c = absurd (ground arith)
  sort-bad ((id, a) ∷ pool) x s v h run c = elim (Bool-cases (a == x)) [
    | inl at_a ↦
        let same : a ≡ x = (==_iff a x).0 at_a in
        sort-keeps pool x (sort_one now a s) (
          subst (λ b. contains b (sort_one now a s).bads ≡ true) same
            (sort_one-bad a s v (ap late same ∙ h)
              (ap (λ b. is_state_running (s.objects b).state) same ∙ run)))
    | inr later ↦
        sort-bad pool x (sort_one now a s) (sort_one-IsSorting a s v) h
          (ap (λ t. is_state_running t.state) (sort_one-late a x s v h) ∙ run) (ground arith)
  ]

reassign-some :
    (goods bads : List ℕ) (objects : ℕ → Thread)
    → 0 < length goods
    → reassign goods bads objects ≡ move_all bads goods 0 objects
unfolding reassign
reassign-some [] bads objects h = absurd (omega (arith, h))
reassign-some (good ∷ goods) bads objects h = refl

-- In a pool where each thread knows its own address and none is in it twice, a thread that is late and
-- in the state `running`, while some thread is good: `check_threads` sets its state to `blocking` and
-- leaves its tables as `move_chroutines_to_thread` does, whatever else of the pool is late.
pub check_threads-late :
    (now : ℕ) (e : Engine) (x : ℕ)
    → IsHomed e.objects
    → Distinct (addresses e.pool)
    → contains x (addresses e.pool) ≡ true
    → is_late now (e.objects x) ≡ true
    → is_state_running (e.objects x).state ≡ true
    → 0 < length (sort now e.pool (unsorted e)).goods
    → (check_threads now e).objects x ≡ left (e.objects x)
unfolding check_threads
check_threads-late now e x home d c h run good =
    let late : ℕ → Bool = λ b. is_late now (e.objects b) in
    let s = sort now e.pool (unsorted e) in
    let start : IsSorting now late (unsorted e) = record {
      home = home;
      times = λ b. refl;
      on_time = refl;
    } in
    let v = sort-IsSorting now late e.pool (unsorted e) start in
    ap (λ objects. objects x) (reassign-some s.goods s.bads s.objects good)
    ∙ move_all-left late s.goods good v.on_time s.bads 0 x s.objects v.home h
        (sort-Distinct now late e.pool (unsorted e) d)
        (sort-bad now late e.pool x (unsorted e) start h run c)
    ∙ ap left (sort-late now late e.pool x (unsorted e) start h)
