-- ===== src/Engine/Owners.antt =====
-- engin/engine.cpp: which of the engine's threads owns a chroutine.
pub mod Moving
pub mod Checking
pub mod Creating
pub mod Steps
use chroutine.Prelude.{
  ℕ, ◌+◌, ◌≤◌, ◌<◌, ◌^◌, ◌≡◌, ◌≢◌, refl, sym, ap, ◌∙◌, subst, ◌⊎◌, inl, inr, Bool, true, false,
  List, [], ◌∷◌, ◌==◌, ==_iff, arith, Bool-cases,
}
use chroutine.Prelude.Ids.{contains}
use chroutine.Chroutine.{invalid_id}
use chroutine.Schedule.{sched}
use chroutine.Schedule.Tables.{ids, IsValid}
use chroutine.Thread.{Thread, Created, gen_chroutine_id}
use chroutine.Scheduler.Keeps.{Keeps-refl}
use chroutine.Thread.Keeps.{KeepsThread}
use chroutine.Thread.Keeps.Makes.{Makes, gen_chroutine_id_room}
use chroutine.Engine.{Engine, put_object, set_object}
use chroutine.Engine.Blocked.Moves.{IsHomed}

abbrev pub ids_at : (ℕ → Thread) → ℕ → List ℕ
ids_at objects a = ids (sched (objects a).schedule)

-- Every thread knows its address and has its tables in step; every chroutine's id has been given out
-- and is not `INVALID_ID`, and it is in the tables of one thread only.
pub record Owned (objects : ℕ → Thread) (counter : ℕ) : Type 0 where
  pub home : IsHomed objects
  pub counted : counter < invalid_id
  pub valid : (a : ℕ) → IsValid (objects a).schedule
  pub known : (a i : ℕ) → contains i (ids_at objects a) ≡ true → i ≤ counter
  pub alone :
      (a b i : ℕ)
      → contains i (ids_at objects a) ≡ true
      → contains i (ids_at objects b) ≡ true
      → a ≡ b

-- Threads that bring no chroutine in keep their owners.
pub all-Owned :
    (old new : ℕ → Thread) (counter : ℕ)
    → Owned old counter
    → ((a : ℕ) → KeepsThread (old a) (new a))
    → Owned new counter
all-Owned old new counter o k =
    let from = λ (a i : ℕ). ((k a).1 (o.valid a)).1 i in
    record {
      home = λ a. (k a).0 ∙ o.home a;
      counted = o.counted;
      valid = λ a. ((k a).1 (o.valid a)).0;
      known = λ a i h. o.known a i (from a i h);
      alone = λ a b i ha hb. o.alone a b i (from a i ha) (from b i hb);
    }

module _ (objects : ℕ → Thread) (a : ℕ) (t : Thread) where
  -- What is at an address once the thread at `a` is `t`.
  pub put_at :
      (P : ℕ → Thread → Type 0)
      → P a t
      → ((b : ℕ) → (b == a) ≡ false → P b (objects b))
      → (b : ℕ) → P b (put_object objects a t b)
  put_at P here others b = elim (Bool-cases (b == a)) [
    | inl same ↦ simp same (subst (λ c. P c t) (sym ((==_iff b a).0 same)) here)
    | inr differs ↦ simp differs (others b differs)
  ]

  -- Where a chroutine of the new threads was before.
  put-from :
      (i : ℕ) (F : Type 0)
      → (contains i (ids (sched t.schedule)) ≡ true → (contains i (ids_at objects a) ≡ true) ⊎ F)
      → (b : ℕ) → contains i (ids_at (put_object objects a t) b) ≡ true
      → (contains i (ids_at objects b) ≡ true) ⊎ ((b ≡ a) × F)
  put-from i F from =
      put_at
        (λ b u.
          contains i (ids (sched u.schedule)) ≡ true
          → (contains i (ids_at objects b) ≡ true) ⊎ ((b ≡ a) × F))
        (λ h. elim (from h) [ inl old ↦ inl old | inr new ↦ inr (refl, new) ])
        (λ b differs h. inl h)

  pub put-Owned :
      (counter : ℕ)
      → Owned objects counter
      → KeepsThread (objects a) t
      → Owned (put_object objects a t) counter
  put-Owned counter o k = all-Owned objects (put_object objects a t) counter o (
      put_at (λ b u. KeepsThread (objects b) u) k
        (λ b differs. (refl, Keeps-refl (objects b).schedule)))

-- The id that comes next is no chroutine's.
next_is_new :
    (objects : ℕ → Thread) (counter a : ℕ)
    → Owned objects counter
    → counter + 1 < invalid_id
    → contains (gen_chroutine_id counter) (ids_at objects a) ≡ false
next_is_new objects counter a o room =
    elim (Bool-cases (contains (gen_chroutine_id counter) (ids_at objects a))) [
      | inl there ↦ absurd (
          omega (
            arith,
            o.known a (gen_chroutine_id counter) there,
            gen_chroutine_id_room counter (omega (arith, room)),
          ))
      | inr absent ↦ absent
    ]

-- A creation on the thread at `a`: the new chroutine is that thread's.
pub make-Owned :
    (objects : ℕ → Thread) (counter a : ℕ) (r : Created)
    → Owned objects counter
    → counter + 1 < invalid_id
    → Makes counter (objects a) r
    → Owned (put_object objects a r.thread) r.counter
make-Owned objects counter a r o room m =
    let id = gen_chroutine_id counter in
    let new = next_is_new objects counter a o room in
    let (valid, back) = m.brings (o.valid a) new in
    let counted : (counter ≤ r.counter) × (r.counter < invalid_id) = elim m.counts [
      | inl same ↦ (omega (arith, same), omega (arith, same, room))
      | inr next ↦
          let one_more = gen_chroutine_id_room counter (omega (arith, room)) in
          (omega (arith, next, one_more), omega (arith, next, one_more, room))
    ] in
    let from : (i b : ℕ)
        → contains i (ids_at (put_object objects a r.thread) b) ≡ true
        → (contains i (ids_at objects b) ≡ true) ⊎ ((b ≡ a) × ((i ≡ id) × (r.counter ≡ id))) =
      λ i b h. put-from objects a r.thread i ((i ≡ id) × (r.counter ≡ id)) (back i) b h in
    let not_both : (b c i : ℕ) → contains i (ids_at objects b) ≡ true → i ≡ id → b ≡ c =
      λ b c i old is_id. absurd (
        omega
          (arith, o.known b i old, is_id, gen_chroutine_id_room counter (omega (arith, room)))) in
    record {
      home =
          put_at objects a r.thread (λ b u. u.address ≡ b) (m.home ∙ o.home a)
            (λ b differs. o.home b);
      counted = counted.1;
      valid = put_at objects a r.thread (λ b u. IsValid u.schedule) valid (λ b differs. o.valid b);
      known = λ b i h. elim (from i b h) [
        | inl old ↦ omega (arith, o.known b i old, counted.0)
        | inr (at, (is_id, is_next)) ↦ omega (arith, is_id, is_next)
      ];
      alone = λ b c i hb hc. elim (from i b hb) [
        | inl old ↦ elim (from i c hc) [
          | inl old' ↦ o.alone b c i old old'
          | inr (at, (is_id, is_next)) ↦ not_both b c i old is_id
        ]
        | inr (at, (is_id, is_next)) ↦ elim (from i c hc) [
          | inl old' ↦ sym (not_both c b i old' is_id)
          | inr (at', rest) ↦ at ∙ sym at'
        ]
      ];
    }

abbrev pub IsOwned : Engine → Type 0
IsOwned e = Owned e.objects e.counter

-- The counter has room for one more id below `INVALID_ID`.
abbrev pub HasRoom : Engine → Type 0
HasRoom e = e.counter + 1 < invalid_id
