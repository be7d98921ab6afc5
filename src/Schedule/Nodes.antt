-- ===== src/Schedule/Nodes.antt =====
-- Tests that hold of every chroutine of the list of engin/chroutine.cpp, under the functions on it.
use chroutine.Prelude.{
  ℕ, ◌≡◌, refl, sym, ap, inl, inr, Bool, true, false, not, none, List, [], ◌∷◌, ◌++◌, ◌==◌,
  if◌then◌else◌, arith, Bool-cases, Option-cases,
}
use chroutine.Prelude.All.{all}
use chroutine.Prelude.Ids.{contains}
use chroutine.Chroutine.{Chroutine}
use chroutine.Schedule.{
  Schedule, sched, modify, modify_sched, split_at, retire, find, remove_chroutine, erase_sched,
  keep_before, clear_all_chroutine, empty,
}
use chroutine.Schedule.Tables.{
  ids, IsValid, ids-modify, joined, joined-keep_before, sched-erase_sched,
}

pub modify-append :
    (id : ℕ) (f : Chroutine → Chroutine) (xs ys : List Chroutine)
    → modify id f (xs ++ ys) ≡ modify id f xs ++ modify id f ys
unfolding modify
modify-append id f [] ys = refl
modify-append id f (x ∷ xs) ys =
    ap (λ l. (if x.me == id then f x else x) ∷ l) (modify-append id f xs ys)

pub sched-modify_sched :
    (id : ℕ) (f : Chroutine → Chroutine) (s : Schedule)
    → sched (modify_sched id f s) ≡ modify id f (sched s)
unfolding modify_sched
sched-modify_sched id f s = sym (modify-append id f s.visited s.rest)

pub modify_sched-IsValid :
    (id : ℕ) (f : Chroutine → Chroutine) {s : Schedule}
    → ((c : Chroutine) → (f c).me ≡ c.me)
    → IsValid s
    → IsValid (modify_sched id f s)
modify_sched-IsValid id f {s} h v = record {
  synced =
      rw (sched-modify_sched id f s, ids-modify id f (sched s) h) (unfold modify_sched in v.synced);
}

pub all-modify :
    (id : ℕ) (f : Chroutine → Chroutine) (p q : Chroutine → Bool)
    → ((c : Chroutine) → p c ≡ true → q (if c.me == id then f c else c) ≡ true)
    → (cs : List Chroutine) → all p cs ≡ true
    → all q (modify id f cs) ≡ true
unfolding modify
all-modify id f p q h [] a = refl
all-modify id f p q h (c ∷ cs) a = ground (arith, h c, all-modify id f p q h cs)

all-split_at :
    (p : Chroutine → Bool) (id : ℕ) (cs : List Chroutine)
    → all p cs ≡ true
    → all p (joined cs (split_at id cs)) ≡ true
unfolding split_at
all-split_at p id [] a = refl
all-split_at p id (c ∷ cs) a = elim (Bool-cases (c.me == id)) [
  | inl here ↦ rw here (ground arith)
  | inr there ↦ rw (there, joined-keep_before) (ground (arith, all-split_at p id cs))
]

pub all-remove_chroutine :
    (p : Chroutine → Bool) (id : ℕ) (s : Schedule)
    → all p (sched s) ≡ true
    → all p (sched (remove_chroutine id s)) ≡ true
unfolding remove_chroutine retire
all-remove_chroutine p id s a = elim (Option-cases (find id s.chroutines_map)) [
  | inl e ↦ rw (e, remove_chroutine) a
  | inr (b, e) ↦
      rw (e, remove_chroutine, sched-erase_sched id (retire id b s)) (all-split_at p id (sched s) a)
]

-- An id that the list does not have is no chroutine's id.
pub all-ne-contains :
    (id : ℕ) (cs : List Chroutine)
    → contains id (ids cs) ≡ false
    → all (λ c. not (c.me == id)) cs ≡ true
all-ne-contains id [] h = refl
all-ne-contains id (c ∷ cs) h = ground (arith, all-ne-contains id cs)

split_at-absent :
    (id : ℕ) (cs : List Chroutine) → contains id (ids cs) ≡ false → split_at id cs ≡ none
unfolding split_at keep_before
split_at-absent id [] h = refl
split_at-absent id (c ∷ cs) h = ground (arith, split_at-absent id cs)

erase_sched-absent :
    (id : ℕ) (s : Schedule)
    → contains id (ids (sched s)) ≡ false
    → ((erase_sched id s).visited ≡ s.visited) × ((erase_sched id s).rest ≡ s.rest)
unfolding erase_sched
erase_sched-absent id s h = ground (arith, split_at-absent id (sched s))

-- Removing an id that the list does not have leaves the list and `sched_iter`.
pub remove_chroutine-absent :
    (id : ℕ) (s : Schedule)
    → contains id (ids (sched s)) ≡ false
    → ((remove_chroutine id s).visited ≡ s.visited) × ((remove_chroutine id s).rest ≡ s.rest)
unfolding remove_chroutine retire
remove_chroutine-absent id s h = elim (Option-cases (find id s.chroutines_map)) [
  | inl e ↦ rw (e, remove_chroutine) (refl, refl)
  | inr (b, e) ↦ rw (e, remove_chroutine) (erase_sched-absent id (retire id b s) h)
]

-- The tables when all chroutines are dropped.
pub sched-clear_all_chroutine : (s : Schedule) → sched (clear_all_chroutine s) ≡ []
unfolding clear_all_chroutine
sched-clear_all_chroutine s = refl

pub clear_all_chroutine-IsValid : (s : Schedule) → IsValid (clear_all_chroutine s)
unfolding clear_all_chroutine find
clear_all_chroutine-IsValid s = record { synced = record { distinct = tt; keyed = λ i. refl } }

pub empty-IsValid : IsValid empty
unfolding find
empty-IsValid = record { synced = record { distinct = tt; keyed = λ i. refl } }
