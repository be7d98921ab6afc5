-- ===== src/Schedule/Tables.antt =====
-- The map and the list of engin/chroutine.cpp name the same chroutines, each once.
use chroutine.Prelude.{
  ℕ, ◌≡◌, refl, sym, ap, ◌∙◌, ◌⊎◌, inl, inr, Bool, true, false, Option, none, some, List, [], ◌∷◌,
  ◌++◌, map, ◌==◌, if◌then◌else◌, arith, append-nil, append_assoc, Option-cases, Bool-cases, ==_iff,
}
use chroutine.Prelude.Ids.{
  contains, Distinct, delete, contains-append, Distinct-snoc, contains-delete, Distinct-delete,
  delete_absent,
}
use mathlib.Core.List.{map-append}
use chroutine.Chroutine.{Chroutine}
use chroutine.Schedule.{
  Schedule, sched, find, erase, assign, modify_sched, by_id, modify, push_at, push_back,
  keep_before, split_at, erase_sched, remove_chroutine, retire,
}

abbrev pub ids : List Chroutine → List ℕ
ids = map λ c. c.me

abbrev pub points : Option Bool → Bool
points none = false
points (some b) = b

-- The map has a pointer to an object for exactly the ids of the list.
pub record IsSynced (m : List (ℕ × Bool)) (l : List ℕ) : Type 0 where
  pub distinct : Distinct l
  pub keyed : (i : ℕ) → points (find i m) ≡ contains i l

pub record IsValid (s : Schedule) : Type 0 where
  pub synced : IsSynced s.chroutines_map (ids (sched s))

pub find-assign :
    (i id : ℕ) (b : Bool) (m : List (ℕ × Bool))
    → find i (assign id b m) ≡ (if id == i then some b else find i m)
unfolding find assign
find-assign i id b [] = refl
find-assign i id b ((k, b') ∷ m) = ground (arith, find-assign i id b m)

pub find-erase :
    (i id : ℕ) (m : List (ℕ × Bool)) → find i (erase id m) ≡ (if id == i then none else find i m)
unfolding find erase
find-erase i id [] = ground arith
find-erase i id ((k, b) ∷ m) = ground (arith, find-erase i id m)

pub contains-by_id :
    (id : ℕ) (cs : List Chroutine)
    → ((by_id id cs ≡ none) × (contains id (ids cs) ≡ false))
      ⊎ ((c : Chroutine) × (by_id id cs ≡ some c) × (c.me ≡ id) × (contains id (ids cs) ≡ true))
unfolding by_id
contains-by_id id [] = inl (refl, refl)
contains-by_id id (c ∷ cs) = elim (Bool-cases (c.me == id)) [
  | inl here ↦ inr (c, ground arith, ground arith, ground arith)
  | inr there ↦ rw there (contains-by_id id cs)
]

pub ids-modify :
    (id : ℕ) (f : Chroutine → Chroutine) (cs : List Chroutine)
    → ((c : Chroutine) → (f c).me ≡ c.me)
    → ids (modify id f cs) ≡ ids cs
unfolding modify
ids-modify id f [] h = refl
ids-modify id f (c ∷ cs) h = ground (arith, h c, ids-modify id f cs h)

abbrev pub joined : List Chroutine → Option (List Chroutine × List Chroutine) → List Chroutine
joined cs none = cs
joined cs (some (before, behind)) = before ++ behind

pub joined-keep_before :
    (c : Chroutine) (cs : List Chroutine) (o : Option (List Chroutine × List Chroutine))
    → joined (c ∷ cs) (keep_before c o) ≡ c ∷ joined cs o
unfolding keep_before
joined-keep_before c cs none = refl
joined-keep_before c cs (some (before, behind)) = refl

ids-split_at :
    (id : ℕ) (cs : List Chroutine) → ids (joined cs (split_at id cs)) ≡ delete id (ids cs)
unfolding split_at
ids-split_at id [] = refl
ids-split_at id (c ∷ cs) = elim (Bool-cases (c.me == id)) [
  | inl here ↦ rw here (refl)
  | inr there ↦ rw (there, joined-keep_before) (ap (λ l. c.me ∷ l) (ids-split_at id cs))
]

pub sched-erase_sched :
    (id : ℕ) (s : Schedule) → sched (erase_sched id s) ≡ joined (sched s) (split_at id (sched s))
unfolding erase_sched
sched-erase_sched id s = elim (Option-cases (split_at id (sched s))) [
  | inl e ↦ rw (e, erase_sched)
  | inr (p, e) ↦ rw (e, erase_sched)
]

map-erase_sched : (id : ℕ) (s : Schedule) → (erase_sched id s).chroutines_map ≡ s.chroutines_map
unfolding erase_sched
map-erase_sched id s = ground arith

ids-erase_sched :
    (id : ℕ) (s : Schedule) → ids (sched (erase_sched id s)) ≡ delete id (ids (sched s))
ids-erase_sched id s = ap ids (sched-erase_sched id s) ∙ ids-split_at id (sched s)

erase-IsSynced :
    (id : ℕ) {m : List (ℕ × Bool)} {l : List ℕ} → IsSynced m l → IsSynced (erase id m) (delete id l)
erase-IsSynced id {m} {l} v = record {
  distinct = Distinct-delete id l v.distinct;
  keyed = λ i. ground (arith, find-erase i id m, contains-delete i id l v.distinct, v.keyed i);
}

assign-IsSynced :
    (id : ℕ) {m : List (ℕ × Bool)} {l : List ℕ}
    → IsSynced m l
    → contains id l ≡ false
    → IsSynced (assign id true m) (l ++ id ∷ [])
assign-IsSynced id {m} {l} v h = record {
  distinct = Distinct-snoc id l v.distinct h;
  keyed = λ i. ground (arith, find-assign i id true m, contains-append i l (id ∷ []), v.keyed i);
}

erase_sched-IsValid :
    (id : ℕ) (s : Schedule)
    → IsSynced s.chroutines_map (delete id (ids (sched s)))
    → IsValid (erase_sched id s)
erase_sched-IsValid id s v = record { synced = rw (map-erase_sched id s, ids-erase_sched id s) v }

-- Removing a chroutine keeps the tables in step, whether it is there or not.
pub remove_chroutine-IsValid : (id : ℕ) {s : Schedule} → IsValid s → IsValid (remove_chroutine id s)
unfolding remove_chroutine
remove_chroutine-IsValid id {s} v = elim (Option-cases (find id s.chroutines_map)) [
  | inl e ↦ rw (e, remove_chroutine) v
  | inr (b, e) ↦
      rw (e, remove_chroutine) (erase_sched-IsValid id (retire id b s) (erase-IsSynced id v.synced))
]

-- It takes the id out of the list, and leaves the order of the others.
pub ids-remove_chroutine :
    (id : ℕ) {s : Schedule}
    → IsValid s
    → ids (sched (remove_chroutine id s)) ≡ delete id (ids (sched s))
unfolding remove_chroutine
ids-remove_chroutine id {s} v = elim (Option-cases (find id s.chroutines_map)) [
  | inl e ↦
      rw (e, remove_chroutine)
        (sym (delete_absent id (ids (sched s)) (sym (v.synced.keyed id) ∙ ap points e)))
  | inr (b, e) ↦ rw (e, remove_chroutine) (ids-erase_sched id (retire id b s))
]

pub running-remove_chroutine :
    (id : ℕ) (s : Schedule) → (remove_chroutine id s).running_id ≡ s.running_id
unfolding remove_chroutine
running-remove_chroutine id s = ground arith

sched-push_at :
    (r : List Chroutine) (c : Chroutine) (s : Schedule)
    → r ≡ s.rest
    → sched (push_at r c s) ≡ sched s ++ c ∷ []
unfolding push_at
sched-push_at [] c s e = rw (← e) (simp append-nil)
sched-push_at (x ∷ xs) c s e = rw (← e) (sym (append_assoc s.visited (x ∷ xs) (c ∷ [])))

map-push_at :
    (r : List Chroutine) (c : Chroutine) (s : Schedule)
    → (push_at r c s).chroutines_map ≡ s.chroutines_map
unfolding push_at
map-push_at [] c s = refl
map-push_at (x ∷ xs) c s = refl

-- A new object goes to the end of the list.
pub sched-push_back : (c : Chroutine) (s : Schedule) → sched (push_back c s) ≡ sched s ++ c ∷ []
unfolding push_back
sched-push_back c s =
    sched-push_at s.rest c (record s { chroutines_map = assign c.me true s.chroutines_map }) refl

map-push_back :
    (c : Chroutine) (s : Schedule)
    → (push_back c s).chroutines_map ≡ assign c.me true s.chroutines_map
unfolding push_back
map-push_back c s = map-push_at s.rest c _

pub push_back-IsValid :
    (c : Chroutine) {s : Schedule}
    → IsValid s
    → contains c.me (ids (sched s)) ≡ false
    → IsValid (push_back c s)
push_back-IsValid c {s} v h = record {
  synced =
      rw (map-push_back c s, sched-push_back c s, map-append) (assign-IsSynced c.me v.synced h);
}

running-push_at :
    (r : List Chroutine) (c : Chroutine) (s : Schedule) → (push_at r c s).running_id ≡ s.running_id
unfolding push_at
running-push_at [] c s = refl
running-push_at (x ∷ xs) c s = refl

pub running-push_back : (c : Chroutine) (s : Schedule) → (push_back c s).running_id ≡ s.running_id
unfolding push_back
running-push_back c s =
    running-push_at s.rest c (record s { chroutines_map = assign c.me true s.chroutines_map })

pub find-remove_chroutine :
    (i id : ℕ) (s : Schedule)
    → find i (remove_chroutine id s).chroutines_map
      ≡ (if id == i then none else find i s.chroutines_map)
unfolding remove_chroutine retire
find-remove_chroutine i id s = elim (Option-cases (find id s.chroutines_map)) [
  | inl e ↦ rw (e, remove_chroutine) (absent e)
  | inr (b, e) ↦
      rw (e, remove_chroutine, map-erase_sched id (retire id b s))
        (find-erase i id s.chroutines_map)
]
  where
    absent :
        find id s.chroutines_map ≡ none
        → find i s.chroutines_map ≡ (if id == i then none else find i s.chroutines_map)
    absent e = elim (Bool-cases (id == i)) [
      | inl same ↦ rw same (ap (λ k. find k s.chroutines_map) (sym ((==_iff id i).0 same)) ∙ e)
      | inr other ↦ rw other
    ]

pub map-modify_sched :
    (id : ℕ) (f : Chroutine → Chroutine) (s : Schedule)
    → (modify_sched id f s).chroutines_map ≡ s.chroutines_map
unfolding modify_sched
map-modify_sched id f s = refl

pub running-modify_sched :
    (id : ℕ) (f : Chroutine → Chroutine) (s : Schedule)
    → (modify_sched id f s).running_id ≡ s.running_id
unfolding modify_sched
running-modify_sched id f s = refl
