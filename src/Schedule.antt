-- ===== src/Schedule.antt =====
-- engin/chroutine.hpp and .cpp: `schedule_t`, the tables of one thread, and the functions of
-- `chroutine_thread_t` that look up, add and remove.
-- `chroutines_sched` is `visited ++ rest`, with `sched_iter` at the head of `rest` (at the end, if
-- that is empty). A map entry is a pointer: `true` to the object in the list that has the key as its
-- id, `false` for the null pointer that `operator[]` leaves at a new key.
pub mod Tables
pub mod Nodes
use chroutine.Prelude.{
  ℕ, ◌+◌, ◌≡◌, Bool, true, false, Option, none, some, List, [], ◌∷◌, ◌++◌, map, ◌==◌, if◌then◌else◌,
}
use chroutine.Prelude.Int.{ℤ, positive}
use chroutine.Chroutine.{
  Chroutine, State, ready, running, suspend, SonResult, result_done, result_timeout, Context,
  invalid_id, blank, wait, yield_over, son_finished,
}

pub record Schedule : Type 0 where
  pub running_id : ℕ
  pub chroutines_map : List (ℕ × Bool)
  pub visited : List Chroutine
  pub rest : List Chroutine
  pub chroutines_to_free : List Chroutine

abbrev pub sched : Schedule → List Chroutine
sched s = s.visited ++ s.rest

abbrev pub empty : Schedule
empty = record {
  running_id = invalid_id;
  chroutines_map = [];
  visited = [];
  rest = [];
  chroutines_to_free = [];
}

-- `chroutines_map.find`, `erase`, and `operator[]` as the target of an assignment.
unfoldable pub find : ℕ → List (ℕ × Bool) → Option Bool
find id [] = none
find id ((k, b) ∷ m) = if k == id then some b else find id m

unfoldable pub erase : ℕ → List (ℕ × Bool) → List (ℕ × Bool)
erase id [] = []
erase id ((k, b) ∷ m) = if k == id then erase id m else (k, b) ∷ erase id m

unfoldable pub assign : ℕ → Bool → List (ℕ × Bool) → List (ℕ × Bool)
assign id b [] = (id, b) ∷ []
assign id b ((k, b') ∷ m) = if k == id then (k, b) ∷ m else (k, b') ∷ assign id b m

-- The object of an id.
unfoldable pub by_id : ℕ → List Chroutine → Option Chroutine
by_id id [] = none
by_id id (c ∷ cs) = if c.me == id then some c else by_id id cs

-- A write through a pointer to the object of an id.
unfoldable pub modify : ℕ → (Chroutine → Chroutine) → List Chroutine → List Chroutine
modify id f [] = []
modify id f (c ∷ cs) = (if c.me == id then f c else c) ∷ modify id f cs

unfoldable pub modify_sched : ℕ → (Chroutine → Chroutine) → Schedule → Schedule
unfolding modify
modify_sched id f s = record s { visited = modify id f s.visited; rest = modify id f s.rest }

-- `get_chroutine(id)`
unfoldable pub get_chroutine : ℕ → Schedule → Option Chroutine
unfolding find by_id
get_chroutine id s = elim (find id s.chroutines_map) [
  | none ↦ none
  | some b ↦ if b then by_id id (sched s) else none
]

-- `chroutines_sched.push_back(c)`: the end iterator stays at the end.
push_at : List Chroutine → Chroutine → Schedule → Schedule
push_at [] c s = record s { visited = s.visited ++ c ∷ [] }
push_at (x ∷ xs) c s = record s { rest = x ∷ (xs ++ c ∷ []) }

unfoldable pub push_back : Chroutine → Schedule → Schedule
unfolding push_at assign
push_back c s = push_at s.rest c (record s { chroutines_map = assign c.me true s.chroutines_map })

pub keep_before :
    Chroutine → Option (List Chroutine × List Chroutine) → Option (List Chroutine × List Chroutine)
keep_before c none = none
keep_before c (some (before, behind)) = some (c ∷ before, behind)

-- The walk from `chroutines_sched.begin()` to the first object with the id: what stands before it
-- and behind it.
pub split_at : ℕ → List Chroutine → Option (List Chroutine × List Chroutine)
unfolding keep_before
split_at id [] = none
split_at id (c ∷ cs) =
    let later = keep_before c (split_at id cs) in if c.me == id then some ([], cs) else later

abbrev as_list : Option Chroutine → List Chroutine
as_list none = []
as_list (some c) = c ∷ []

-- The list without the object, and `sched_iter` behind the gap.
pub erase_sched : ℕ → Schedule → Schedule
unfolding split_at
erase_sched id s = elim (split_at id (sched s)) [
  | none ↦ s
  | some (before, behind) ↦ record s { visited = before; rest = behind }
]

-- The map entry goes, and its pointer, `b`, is kept in `chroutines_to_free`.
pub retire : ℕ → Bool → Schedule → Schedule
unfolding erase by_id
retire id b s = record s {
  chroutines_to_free = s.chroutines_to_free ++ (if b then as_list (by_id id (sched s)) else []);
  chroutines_map = erase id s.chroutines_map;
}

-- `remove_chroutine(id)`
unfoldable pub remove_chroutine : ℕ → Schedule → Schedule
unfolding find retire erase_sched
remove_chroutine id s = elim (find id s.chroutines_map) [
  | none ↦ s
  | some b ↦ erase_sched id (retire id b s)
]

-- `clear_all_chroutine()`
pub clear_all_chroutine : Schedule → Schedule
clear_all_chroutine s = record s {
  chroutines_map = [];
  chroutines_to_free = [];
  visited = [];
  rest = [];
}

-- `done()`
pub done : Schedule → Bool
done s = elim s.chroutines_map [ [] ↦ true | _ ↦ false ]
