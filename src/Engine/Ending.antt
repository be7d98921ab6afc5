-- ===== src/Engine/Ending.antt =====
-- `stop_all` of engin/engine.cpp reaches every thread of the pool.
use chroutine.Prelude.{
  ℕ, ◌≡◌, sym, ap, ◌∙◌, inl, inr, Bool, true, false, List, [], ◌∷◌, ◌==◌, if◌then◌else◌, arith,
  Bool-cases,
}
use chroutine.Thread
use chroutine.Thread.{Thread}
use chroutine.Thread.Laws.{need_stop-stop}
use chroutine.Engine.{put_object, stop_pool}

-- The pool has the thread object at `a`.
abbrev pub has_thread : ℕ → List (ℕ × ℕ) → Bool
has_thread a [] = false
has_thread a ((id, b) ∷ pool) = if a == b then true else has_thread a pool

-- A thread that is to stop stays so.
stop_pool-stays :
    (pool : List (ℕ × ℕ)) (objects : ℕ → Thread) (a : ℕ)
    → (objects a).need_stop ≡ true
    → (stop_pool pool objects a).need_stop ≡ true
unfolding stop_pool
stop_pool-stays [] objects a told = told
stop_pool-stays ((id, b) ∷ pool) objects a told =
    stop_pool-stays pool (put_object objects b (Thread.stop (objects b))) a
      (elim (Bool-cases (a == b)) [
        | inl same ↦
            ap (λ c. (if c then Thread.stop (objects b) else objects a).need_stop) same
            ∙ need_stop-stop (objects b)
        | inr differs ↦
            ap (λ c. (if c then Thread.stop (objects b) else objects a).need_stop) differs ∙ told
      ])

-- Behind the loop of `stop_all`, every thread object of the pool is to stop.
pub stop_pool-all :
    (pool : List (ℕ × ℕ)) (objects : ℕ → Thread) (a : ℕ)
    → has_thread a pool ≡ true
    → (stop_pool pool objects a).need_stop ≡ true
unfolding stop_pool
stop_pool-all [] objects a there = absurd (ground (arith, there))
stop_pool-all ((id, b) ∷ pool) objects a there = elim (Bool-cases (a == b)) [
  | inl same ↦ stop_pool-stays pool (put_object objects b (Thread.stop (objects b))) a (
      ap (λ c. (if c then Thread.stop (objects b) else objects a).need_stop) same
      ∙ need_stop-stop (objects b))
  | inr differs ↦
      stop_pool-all pool (put_object objects b (Thread.stop (objects b))) a
        (ap (λ c. if c then true else has_thread a pool) (sym differs) ∙ there)
]
