-- ===== src/Engine/Start.antt =====
-- The start of the pool in engin/engine.cpp: `init`, whose loop launches the threads, and
-- `on_thread_ready`, which each of them calls when it runs.
use chroutine.Prelude.{
  ℕ, suc, ◌+◌, ◌-◌, ◌%◌, ◌^◌, ◌≤◌, ◌<◌, ◌≡◌, refl, sym, ap, ◌∙◌, subst, inl, inr, Bool, true, false,
  ◌&&◌, none, some, List, [], ◌∷◌, ◌++◌, map, length, get_or, length-append, ltb, ◌==◌,
  if◌then◌else◌, arith, ==_iff,
}
use chroutine.Prelude.All.{all, all-append, all_mono}
use chroutine.Prelude.Ids.{
  contains, contains-append, Distinct, Distinct-snoc, Distinct-middle, Distinct-drop,
}
use mathlib.Core.List.{map-append}
use chroutine.Thread.{Thread}
use chroutine.Channel.Ring.{mod_wrap}
use chroutine.Engine.{Engine, pool_find, pool_assign, launch, on_thread_ready}

abbrev pub is_new : ℕ → List (ℕ × ℕ) → Bool
is_new id pool = elim (pool_find id pool) [ none ↦ true | some a ↦ false ]

abbrev waiting_ok : List (ℕ × ℕ) → ℕ → ℕ × ℕ → Bool
waiting_ok pool size (i, id) = is_new id pool && ltb i size

abbrev pub thread_ids : List (ℕ × ℕ) → List ℕ
thread_ids pending = map (λ p. p.1) pending

abbrev pub before_init : (ℕ → Thread) → Engine
before_init objects = record {
  objects = objects;
  pool = [];
  creating = [];
  init_over = false;
  dispatch_seed = 0;
  main_thread = none;
  epoll_thread = none;
  counter = 0;
}

-- The engine while `init` starts `n` threads, with the index and the id of each thread that has been
-- launched and has not called `on_thread_ready` yet. No two threads have one id.
pub data Starting (n : ℕ) : Engine → List (ℕ × ℕ) → Type 0 where
  begins : (objects : ℕ → Thread) → Starting n (before_init objects) []
  launches :
      {e : Engine} {pending : List (ℕ × ℕ)} (address id : ℕ)
      → Starting n e pending
      → length e.creating < n
      → is_new id e.pool ≡ true
      → contains id (thread_ids pending) ≡ false
      → Starting n (launch address e) (pending ++ (length e.creating, id) ∷ [])
  readies :
      {e : Engine} (front : List (ℕ × ℕ)) (i id : ℕ) (back : List (ℕ × ℕ))
      → Starting n e (front ++ (i, id) ∷ back)
      → Starting n (on_thread_ready i id e) (front ++ back)

-- The first thread may be ready before the second is launched: then `init_over` is set while the
-- pool has one thread, of however many there are to be.
pub init_over_early :
    (n address id : ℕ) (objects : ℕ → Thread)
    → 1 < n
    → (e : Engine) × Starting n e []
      × (e.init_over ≡ true)
      × (length e.pool ≡ 1)
      × (length e.creating < n)
unfolding launch on_thread_ready pool_assign pool_find
init_over_early n address id objects h = (
  on_thread_ready 0 id (launch address (before_init objects)),
  readies [] 0 id [] (launches address id (begins objects) (omega arith) refl refl),
  refl,
  refl,
  omega arith,
)

record IsStarting (n : ℕ) (e : Engine) (pending : List (ℕ × ℕ)) : Type 0 where
  pub count : length e.pool + length pending ≡ length e.creating
  pub new : all (waiting_ok e.pool (length e.creating)) pending ≡ true
  pub distinct : Distinct (thread_ids pending)
  pub within : length e.creating ≤ n
  pub over : length pending ≡ 0 → 0 < length e.creating → e.init_over ≡ true

length-pool_assign :
    (id a : ℕ) (pool : List (ℕ × ℕ))
    → is_new id pool ≡ true
    → length (pool_assign id a pool) ≡ suc (length pool)
unfolding pool_assign pool_find
length-pool_assign id a [] h = refl
length-pool_assign id a ((k, b) ∷ pool) h = ground (arith, length-pool_assign id a pool)

is_new-pool_assign :
    (id other a : ℕ) (pool : List (ℕ × ℕ))
    → (other == id) ≡ false
    → is_new other pool ≡ true
    → is_new other (pool_assign id a pool) ≡ true
unfolding pool_assign pool_find
is_new-pool_assign id other a [] ne h = ground arith
is_new-pool_assign id other a ((k, b) ∷ pool) ne h =
    ground (arith, is_new-pool_assign id other a pool)

-- `creating_index > m_creating.size() - 1` is false for an index of `m_creating`.
guard_passes : (i len : ℕ) → i < len → len < 2 ^ 64 → ltb ((len + (2 ^ 64 - 1)) % 2 ^ 64) i ≡ false
guard_passes i len h small = elim (mod_wrap (len + (2 ^ 64 - 1)) (2 ^ 64) (omega arith)) [
  | inl at ↦ absurd (omega (arith, at.0))
  | inr wraps ↦ rw wraps.1 (ground arith)
]

-- The engine when an index of `m_creating` is ready.
readied :
    (i id : ℕ) (e : Engine)
    → i < length e.creating
    → length e.creating < 2 ^ 64
    → let pool = pool_assign id (get_or e.creating i 0) e.pool in
      on_thread_ready i id e ≡ record e {
        pool = pool;
        init_over = if length pool == length e.creating then true else e.init_over;
      }
unfolding on_thread_ready
readied i id e h small = simp (guard_passes i (length e.creating) h small) refl

-- A thread that waits to be ready still does when another one has become ready.
still_waiting :
    (id a size : ℕ) (pool l : List (ℕ × ℕ))
    → contains id (thread_ids l) ≡ false
    → all (waiting_ok pool size) l ≡ true
    → all (waiting_ok (pool_assign id a pool) size) l ≡ true
still_waiting id a size pool [] c h = refl
still_waiting id a size pool ((i, other) ∷ l) c h =
    ground (arith, is_new-pool_assign id other a pool, still_waiting id a size pool l)

more_launched :
    (size : ℕ) (pool : List (ℕ × ℕ)) (p : ℕ × ℕ)
    → waiting_ok pool size p ≡ true
    → waiting_ok pool (size + 1) p ≡ true
more_launched size pool (i, id) h = ground arith

module _ (n : ℕ) where
  launch-IsStarting :
      {e : Engine} {pending : List (ℕ × ℕ)} (address id : ℕ)
      → IsStarting n e pending
      → length e.creating < n
      → is_new id e.pool ≡ true
      → contains id (thread_ids pending) ≡ false
      → IsStarting n (launch address e) (pending ++ (length e.creating, id) ∷ [])
  unfolding launch
  launch-IsStarting {e} {pending} address id v lt new apart = record {
    count = omega (
      arith,
      v.count,
      length-append pending ((length e.creating, id) ∷ []),
      length-append e.creating (address ∷ []),
    );
    new =
        rw (length-append e.creating (address ∷ []), all-append)
          (ground (
            arith,
            all_mono (waiting_ok e.pool (length e.creating))
                (waiting_ok e.pool (length e.creating + 1))
                (more_launched (length e.creating) e.pool) pending v.new,
          ));
    distinct =
        subst Distinct (sym (map-append (λ p. p.1) pending ((length e.creating, id) ∷ [])))
          (Distinct-snoc id (thread_ids pending) v.distinct apart);
    within = omega (arith, length-append e.creating (address ∷ []));
    over = λ z. absurd (omega (arith, z, length-append pending ((length e.creating, id) ∷ [])));
  }

  module _ {e : Engine} (front : List (ℕ × ℕ)) (i id : ℕ) (back : List (ℕ × ℕ)) (small : n < 2 ^ 64)
      (v : IsStarting n e (front ++ (i, id) ∷ back)) where
    abbrev joined : List (ℕ × ℕ)
    joined = pool_assign id (get_or e.creating i 0) e.pool

    waiting_parts :
        (is_new id e.pool ≡ true)
        × (i < length e.creating)
        × (all (waiting_ok e.pool (length e.creating)) (front ++ back) ≡ true)
    waiting_parts = ground (
      arith,
      all-append (waiting_ok e.pool (length e.creating)) front ((i, id) ∷ back),
      all-append (waiting_ok e.pool (length e.creating)) front back,
      v.new,
    )

    apart : Distinct (thread_ids front ++ id ∷ thread_ids back)
    apart = subst Distinct (map-append (λ p. p.1) front ((i, id) ∷ back)) v.distinct

    count_joined : length joined + length (front ++ back) ≡ length e.creating
    count_joined = omega (
      arith,
      length-pool_assign id (get_or e.creating i 0) e.pool waiting_parts.0,
      length-append front back,
      length-append front ((i, id) ∷ back),
      v.count,
    )

    not_waiting : contains id (thread_ids (front ++ back)) ≡ false
    not_waiting =
        ap (contains id) (map-append (λ p. p.1) front back)
        ∙ ground (
          arith,
          contains-append id (thread_ids front) (thread_ids back),
          Distinct-middle id (thread_ids front) (thread_ids back) apart,
        )

    ready-IsStarting : IsStarting n (on_thread_ready i id e) (front ++ back)
    ready-IsStarting = rw (readied i id e waiting_parts.1 (omega (arith, v.within))) (record {
      count = count_joined;
      new =
          still_waiting id (get_or e.creating i 0) (length e.creating) e.pool (front ++ back)
            not_waiting waiting_parts.2;
      distinct =
          subst Distinct (sym (map-append (λ p. p.1) front back))
            (Distinct-drop id (thread_ids front) (thread_ids back) apart);
      within = v.within;
      over = λ none_left some_there.
          rw
            ((==_iff (length joined) (length e.creating)).1
              (omega (arith, count_joined, none_left)))
            refl;
    })

  Starting-IsStarting :
      {e : Engine} {pending : List (ℕ × ℕ)}
      → n < 2 ^ 64
      → Starting n e pending
      → IsStarting n e pending
  Starting-IsStarting small (begins objects) = record {
    count = refl;
    new = refl;
    distinct = tt;
    within = omega arith;
    over = λ z h. absurd (omega (arith, h));
  }
  Starting-IsStarting small (launches address id st lt new apart) =
      launch-IsStarting address id (Starting-IsStarting small st) lt new apart
  Starting-IsStarting small (readies front i id back st) =
      ready-IsStarting front i id back small (Starting-IsStarting small st)

-- For `n` threads, at least one and fewer than 2 ^ 64, however their calls of `on_thread_ready` fall
-- between the launches: once all `n` threads are launched and ready, `init_over` is set, so the wait at the end of `init` is over, and the pool has
-- all `n` of them.
pub Starting-all_ready :
    (n : ℕ) {e : Engine}
    → n < 2 ^ 64
    → 0 < n
    → Starting n e []
    → length e.creating ≡ n
    → (e.init_over ≡ true) × (length e.pool ≡ n)
Starting-all_ready n small some_there st whole =
    let v = Starting-IsStarting n small st in
    (v.over refl (omega arith), omega (arith, v.count, whole))
