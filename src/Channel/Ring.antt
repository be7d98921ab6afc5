-- ===== src/Channel/Ring.antt =====
-- The ring of engin/channel.hpp: what `m_unread` elements from `m_r_index` on are.
use native.Mathlib.Nat.{mod-eq_of_lt, mod-eq-sub-mod, mod-add-mod, add-zero}
use native.Mathlib.Decide.{dec_lt}
use native.Mathlib.Numerals.{add-one}
use chroutine.Prelude.{
  ℕ, zero, suc, ◌+◌, ◌-◌, ◌%◌, ◌≤◌, ◌<◌, ◌≡◌, refl, ap, ap₂, ◌∙◌, ◌≢◌, ◌⊎◌, inl, inr, List, [], ◌∷◌,
  ◌++◌, length, length-append, arith,
}
use chroutine.Channel.{update}

-- An index below twice the size goes round once at most.
pub mod_wrap :
    (x cap : ℕ) → x < cap + cap → ((x < cap) × (x % cap ≡ x)) ⊎ ((cap ≤ x) × (x % cap ≡ x - cap))
mod_wrap x cap h = elim (dec_lt x cap) [
  | yes p ↦ inl (p, mod-eq_of_lt p)
  | no p ↦ inr (
    omega arith,
    mod-eq-sub-mod {n = x} {m = cap} (omega arith)
        ∙ mod-eq_of_lt {n = x - cap} {m = cap} (omega arith),
  )
]

module _ {ℓ} {T : Type ℓ} where
  -- The `n` elements from index `r` on, going round at `cap`, the newest last.
  abbrev pub contents : (ℕ → T) → ℕ → ℕ → ℕ → List T
  contents a cap r zero = []
  contents a cap r (suc n) = contents a cap r n ++ a ((r + n) % cap) ∷ []

  pub length-contents : (a : ℕ → T) (cap r n : ℕ) → length (contents a cap r n) ≡ n
  length-contents a cap r zero = refl
  length-contents a cap r (suc n) = omega (
    arith,
    length-append (contents a cap r n) (a ((r + n) % cap) ∷ []),
    length-contents a cap r n,
  )

  -- The oldest element stands at `r`.
  pub contents-suc :
      (a : ℕ → T) (cap r n : ℕ)
      → r < cap
      → contents a cap r (suc n) ≡ a r ∷ contents a cap ((r + 1) % cap) n
  contents-suc a cap r zero h = rw (add-zero, mod-eq_of_lt h)
  contents-suc a cap r (suc n) h = ap₂ (λ xs i. xs ++ a i ∷ []) (contents-suc a cap r n h) shift
    where
      shift : (r + suc n) % cap ≡ ((r + 1) % cap + n) % cap
      shift = rw mod-add-mod (ap (λ k. k % cap) (omega arith))

  -- A write outside the first `n` elements leaves them.
  contents-update :
      (a : ℕ → T) (cap r n i : ℕ) (v : T)
      → ((k : ℕ) → k < n → (r + k) % cap ≢ i)
      → contents (update a i v) cap r n ≡ contents a cap r n
  contents-update a cap r zero i v h = refl
  contents-update a cap r (suc n) i v h =
      ap₂ (λ xs x. xs ++ x ∷ []) (contents-update a cap r n i v (λ k p. h k (omega arith)))
        (ground (arith, h n (omega arith)))

  -- A write just behind the last element appends it.
  pub contents-put :
      (a : ℕ → T) (cap r n : ℕ) (v : T)
      → r < cap
      → n < cap
      → contents (update a ((r + n) % cap) v) cap r (suc n) ≡ contents a cap r n ++ v ∷ []
  contents-put a cap r n v hr hn =
      ap₂ (λ xs x. xs ++ x ∷ []) (contents-update a cap r n ((r + n) % cap) v apart) (ground arith)
    where
      apart : (k : ℕ) → k < n → (r + k) % cap ≢ (r + n) % cap
      apart k p =
          omega (arith, mod_wrap (r + k) cap (omega arith), mod_wrap (r + n) cap (omega arith))

  -- The same at the index and the count that the code computes.
  pub contents-put_at :
      (a : ℕ → T) (cap r n : ℕ) (v : T) {i : ℕ}
      → r < cap
      → n < cap
      → i ≡ (r + n) % cap
      → contents (update a i v) cap r (n + 1) ≡ contents a cap r n ++ v ∷ []
  contents-put_at a cap r n v hr hn e = rw (e, add-one) (contents-put a cap r n v hr hn)

  -- Taking the oldest element leaves the others.
  pub contents-take :
      (a : ℕ → T) (cap r n : ℕ)
      → r < cap
      → 0 < n
      → contents a cap r n ≡ a r ∷ contents a cap ((r + 1) % cap) (n - 1)
  contents-take a cap r zero hr h = elim h [ ]
  contents-take a cap r (suc n) hr h =
      let e : n ≡ suc n - 1 = omega arith in
      contents-suc a cap r n hr ∙ ap (λ k. a r ∷ contents a cap ((r + 1) % cap) k) e

  pub contents-none : (a : ℕ → T) (cap r n : ℕ) → n ≡ 0 → contents a cap r n ≡ []
  contents-none a cap r zero h = refl
  contents-none a cap r (suc n) h = absurd (omega arith)
