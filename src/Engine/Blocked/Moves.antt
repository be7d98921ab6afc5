-- ===== src/Engine/Blocked/Moves.antt =====
-- Which threads `check_threads` of engin/engine.cpp takes the chroutines from.
use native.Mathlib.Nat.{mod-lt}
use chroutine.Prelude.{
  ℕ, zero, suc, ◌%◌, ◌<◌, ◌≡◌, refl, sym, ap, ◌∙◌, subst, inl, inr, Bool, true, false, not, List,
  [], ◌∷◌, length, get_or, ◌==◌, ==_iff, arith, Bool-cases,
}
use chroutine.Prelude.All.{all}
use chroutine.Prelude.Ids.{contains, Distinct}
use chroutine.Thread.{Thread}
use chroutine.Thread.Move.Apart.{left, address-move, move-left}
use chroutine.Engine.Blocked.{move_one, move_all}

-- Every thread knows its own address.
abbrev pub IsHomed : (ℕ → Thread) → Type 0
IsHomed objects = (x : ℕ) → (objects x).address ≡ x

all-get_or :
    (p : ℕ → Bool) (xs : List ℕ) (i d : ℕ)
    → all p xs ≡ true
    → i < length xs
    → p (get_or xs i d) ≡ true
all-get_or p [] i d a h = absurd (omega (arith, h))
all-get_or p (x ∷ xs) zero d a h = ground arith
all-get_or p (x ∷ xs) (suc i) d a h = all-get_or p xs i d (ground arith) (omega arith)

module _ (bad good : ℕ) (objects : ℕ → Thread) (home : IsHomed objects) where
  pub move_one-IsHomed : IsHomed (move_one bad good objects)
  unfolding move_one
  move_one-IsHomed x = elim (Bool-cases (x == bad)) [
    | inl at_bad ↦
        simp at_bad
          ((address-move (objects bad) (objects good)).0 ∙ home bad ∙ sym ((==_iff x bad).0 at_bad))
    | inr not_bad ↦ elim (Bool-cases (x == good)) [
      | inl at_good ↦
          simp (not_bad, at_good)
            ((address-move (objects bad) (objects good)).1
              ∙ home good
              ∙ sym ((==_iff x good).0 at_good))
      | inr not_good ↦ simp (not_bad, not_good) (home x)
    ]
  ]

  move_one-bad : (good == bad) ≡ false → move_one bad good objects bad ≡ left (objects bad)
  unfolding move_one
  move_one-bad differs =
      simp ((==_iff bad bad).1 refl)
        (move-left (objects bad) (objects good) (rw (home good, home bad) differs))

  move_one-other :
      (x : ℕ) → (x == bad) ≡ false → (x == good) ≡ false → move_one bad good objects x ≡ objects x
  unfolding move_one
  move_one-other x not_bad not_good = simp (not_bad, not_good) refl

-- The moves, from threads that are late to threads that are not.
module _ (late : ℕ → Bool) (goods : List ℕ) (some_good : 0 < length goods)
    (on_time : all (λ g. not (late g)) goods ≡ true) where
  abbrev target : ℕ → ℕ
  target index = get_or goods (index % length goods) 0

  target-on_time : (index : ℕ) → late (target index) ≡ false
  target-on_time index = ground (
    arith,
    all-get_or (λ g. not (late g)) goods (index % length goods) 0 on_time (mod-lt index some_good),
  )

  not_target : (x index : ℕ) → late x ≡ true → (x == target index) ≡ false
  not_target x index h = elim (Bool-cases (x == target index)) [
    | inl same ↦
        absurd (ground (arith, target-on_time index, h, ap late ((==_iff x (target index)).0 same)))
    | inr differs ↦ differs
  ]

  move_all-apart :
      (bads : List ℕ) (index x : ℕ) (objects : ℕ → Thread)
      → IsHomed objects
      → late x ≡ true
      → contains x bads ≡ false
      → move_all bads goods index objects x ≡ objects x
  unfolding move_all
  move_all-apart [] index x objects home h c = refl
  move_all-apart (bad ∷ bads) index x objects home h c =
      move_all-apart bads (suc index) x (move_one bad (target index) objects)
        (move_one-IsHomed bad (target index) objects home) h (ground arith)
      ∙ move_one-other bad (target index) objects home x (ground arith) (not_target x index h)

  pub move_all-left :
      (bads : List ℕ) (index x : ℕ) (objects : ℕ → Thread)
      → IsHomed objects
      → late x ≡ true
      → Distinct bads
      → contains x bads ≡ true
      → move_all bads goods index objects x ≡ left (objects x)
  unfolding move_all
  move_all-left [] index x objects home h d c = absurd (ground arith)
  move_all-left (bad ∷ bads) index x objects home h d c = elim (Bool-cases (bad == x)) [
    | inl at_bad ↦
        let same : bad ≡ x = (==_iff bad x).0 at_bad in
        move_all-apart bads (suc index) x (move_one bad (target index) objects)
          (move_one-IsHomed bad (target index) objects home) h
          (subst (λ b. contains b bads ≡ false) same d.0)
        ∙ subst (λ b. move_one b (target index) objects x ≡ left (objects x)) (sym same)
            (move_one-bad x (target index) objects home (ground (arith, not_target x index h)))
    | inr later ↦
        move_all-left bads (suc index) x (move_one bad (target index) objects)
          (move_one-IsHomed bad (target index) objects home) h d.1 (ground arith)
        ∙ ap left
            (move_one-other bad (target index) objects home x (ground arith) (not_target x index h))
  ]
