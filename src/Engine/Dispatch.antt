-- ===== src/Engine/Dispatch.antt =====
-- How `get_lightest_thread` of engin/engine.cpp spreads the chroutines over the pool.
use native.Mathlib.Nat.{mod-add-mod, mod-lt}
use chroutine.Prelude.{
  ℕ, zero, suc, ◌+◌, ◌-◌, ◌%◌, ◌^◌, ◌<◌, ◌≡◌, refl, sym, ap, ap₂, ◌∙◌, inl, inr, true, Option, some,
  List, [], ◌∷◌, length, get_or, get_elem?, arith,
}
use chroutine.Channel.Ring.{mod_wrap}
use native.Mathlib.Decide.{dec_lt}
use chroutine.Engine.{Engine, to_size, next_dispatch, get_lightest_thread}

-- The engine after `k` calls of `get_lightest_thread`, and what the next one returns.
pub dispatches : ℕ → Engine → Engine
dispatches zero e = e
dispatches (suc k) e = dispatches k (get_lightest_thread e).1

pub chosen : ℕ → Engine → Option ℕ
unfolding dispatches
chosen k e = (get_lightest_thread (dispatches k e)).0

get_or-get_elem? :
    {A : Type 0} (xs : List A) (i : ℕ) (d : A)
    → i < length xs
    → get_elem? xs i ≡ some (get_or xs i d)
get_or-get_elem? [] i d h = absurd (omega (arith, h))
get_or-get_elem? (x ∷ xs) zero d h = refl
get_or-get_elem? (x ∷ xs) (suc i) d h = get_or-get_elem? xs i d (omega arith)

-- Which of the next calls comes to the index `j`, with the seed at `r` of a round.
round_to : (r j n : ℕ) → r < n → j < n → (i : ℕ) × (i < n) × ((r + i) % n ≡ j)
round_to r j n hr hj = elim (dec_lt j r) [
  | yes behind ↦ (
    j + n - r,
    omega arith,
    elim (mod_wrap (r + (j + n - r)) n (omega arith)) [
      | inl at ↦ absurd (omega (arith, at.0))
      | inr wraps ↦ wraps.1 ∙ omega arith
    ],
  )
  | no ahead ↦ (
    j - r,
    omega arith,
    elim (mod_wrap (r + (j - r)) n (omega arith)) [
      | inl at ↦ at.1 ∙ omega arith
      | inr wraps ↦ absurd (omega (arith, wraps.0))
    ],
  )
]

next_dispatch-some :
    (l : List ℕ) (seed : ℕ)
    → 0 < length l
    → seed < 2 ^ 31
    → next_dispatch l seed ≡ (some (get_or l (seed % length l) 0), seed + 1)
unfolding next_dispatch to_size
next_dispatch-some [] seed h small = absurd (omega (arith, h))
next_dispatch-some (a ∷ others) seed h small =
    ap₂ (λ i j. (some (get_or (a ∷ others) (i % length (a ∷ others)) 0), j)) (ground (arith, small))
      (omega (arith, small))

get_lightest_thread-some :
    (e : Engine)
    → e.init_over ≡ true
    → 0 < length e.creating
    → e.dispatch_seed < 2 ^ 31
    → get_lightest_thread e ≡ (
      some (get_or e.creating (e.dispatch_seed % length e.creating) 0),
      record e { dispatch_seed = e.dispatch_seed + 1 },
    )
unfolding get_lightest_thread
get_lightest_thread-some e h some_there small =
    simp (h, next_dispatch-some e.creating e.dispatch_seed some_there small) refl

chosen_at :
    (k : ℕ) (e : Engine)
    → e.init_over ≡ true
    → 0 < length e.creating
    → e.dispatch_seed + k < 2 ^ 31
    → chosen k e ≡ some (get_or e.creating ((e.dispatch_seed + k) % length e.creating) 0)
unfolding chosen dispatches
chosen_at zero e h some_there small =
    ap (λ r. r.0) (get_lightest_thread-some e h some_there (omega (arith, small)))
    ∙ ap (λ k. some (get_or e.creating (k % length e.creating) 0)) (omega arith)
chosen_at (suc k) e h some_there small =
    ap (λ r. chosen k r.1) (get_lightest_thread-some e h some_there (omega (arith, small)))
    ∙ chosen_at k (record e { dispatch_seed = e.dispatch_seed + 1 }) h some_there
        (omega (arith, small))
    ∙ ap (λ m. some (get_or e.creating (m % length e.creating) 0)) (omega arith)

-- Once the threads are ready, and as long as the seed does not reach 2 ^ 31: each of the `n` threads is the
-- one chosen by one of the next `n` calls of `get_lightest_thread`.
pub get_lightest_thread-fair :
    (e : Engine) (j : ℕ)
    → e.init_over ≡ true
    → e.dispatch_seed + length e.creating < 2 ^ 31
    → j < length e.creating
    → (i : ℕ) × (i < length e.creating) × (chosen i e ≡ get_elem? e.creating j)
get_lightest_thread-fair e j h small lt =
    let n = length e.creating in
    let (i, below, meets) =
      round_to (e.dispatch_seed % n) j n (mod-lt e.dispatch_seed (omega arith)) lt in
    (
      i,
      below,
      chosen_at i e h (omega arith) (omega (arith, small, below))
          ∙ ap (λ k. some (get_or e.creating k 0)) (sym (mod-add-mod e.dispatch_seed n i) ∙ meets)
          ∙ sym (get_or-get_elem? e.creating j 0 lt),
    )
