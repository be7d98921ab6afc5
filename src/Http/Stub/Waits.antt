-- ===== src/Http/Stub/Waits.antt =====
-- The loop of `execute_all_async` in net/http_client/curl_stub.cpp ends.
use chroutine.Prelude.{
  ℕ, zero, suc, ◌+◌, ◌≤◌, ◌<◌, ◌≡◌, inl, inr, Bool, true, false, Option, none, some, ltb, ◌==◌,
  if◌then◌else◌, arith, Bool-cases,
}
use chroutine.Http.Stub.{wait_loop, execute_all_async}

-- A property of both branches.
both : {A : Type 0} (P : A → Type 0) {x y : A} (b : Bool) → P x → P y → P (if b then x else y)
both P true px py = px
both P false px py = py

module _ (wait : ℕ → Option ℕ) (run : ℕ → ℕ) where
  -- A result of the loop, for one that has waited and performed that often already: it has waited at
  -- most 10 times, and performed only behind a wait.
  abbrev pub Bounded : ℕ → ℕ → Option (ℕ × ℕ) → Type 0
  Bounded times performed none = ⊥
  Bounded times performed (some (waits, performs)) =
      (waits ≤ 10) × (times ≤ waits) × (performs + times ≤ performed + waits)

  wait_loop-Bounded :
      (fuel times timeouts performed : ℕ)
      → times ≤ 10
      → 10 < fuel + times
      → Bounded times performed (wait_loop wait run fuel times timeouts performed)
  unfolding wait_loop
  wait_loop-Bounded zero times timeouts performed le enough = absurd (omega (arith, le, enough))
  wait_loop-Bounded (suc fuel) times timeouts performed le enough =
      let next : ltb times 10 ≡ true
          → (t k : ℕ) → Bounded (suc times) k (wait_loop wait run fuel (suc times) t k) =
        λ less t k. wait_loop-Bounded fuel (suc times) t k (ground arith) (omega (arith, enough)) in
      both P (run performed == 0) ends (elim (Bool-cases (ltb times 10)) [
        | inl less ↦ simp less (both P (ltb timeouts 5) (turn (next less) (wait times)) ends)
        | inr enough_waits ↦ simp enough_waits ends
      ])
    where
      P : Option (ℕ × ℕ) → Type 0
      P = Bounded times performed

      ends : Bounded times performed (some (times, performed))
      ends = (le, omega arith, omega arith)

      later :
          (r : Option (ℕ × ℕ)) (k : ℕ)
          → k ≤ suc performed
          → Bounded (suc times) k r
          → Bounded times performed r
      later none k le_k e = elim e [ ]
      later (some (w, p)) k le_k (a, b, c) = (a, omega (arith, b), omega (arith, c, le_k))

      turn :
          ((t k : ℕ) → Bounded (suc times) k (wait_loop wait run fuel (suc times) t k))
          → (answer : Option ℕ)
          → Bounded times performed (elim answer [
            | none ↦ some (times, performed)
            | some numfds ↦
                if numfds == 0
                then wait_loop wait run fuel (suc times) (suc timeouts) performed
                else wait_loop wait run fuel (suc times) 0 (suc performed)
          ])
      turn rest none = ends
      turn rest (some numfds) =
          both (Bounded times performed) (numfds == 0)
            (later (wait_loop wait run fuel (suc times) (suc timeouts) performed) performed
              (omega arith) (rest (suc timeouts) performed))
            (later (wait_loop wait run fuel (suc times) 0 (suc performed)) (suc performed)
              (omega arith) (rest 0 (suc performed)))

  -- Whatever libcurl answers, with fuel for more than 10 turns: `execute_all_async` returns, has waited at
  -- most 10 times, and has not performed more often in the loop than it has waited.
  pub execute_all_async-Bounded :
      (fuel : ℕ) → 10 < fuel → Bounded 0 0 (execute_all_async wait run fuel)
  unfolding execute_all_async
  execute_all_async-Bounded fuel enough =
      wait_loop-Bounded fuel 0 0 0 (omega arith) (omega (arith, enough))
