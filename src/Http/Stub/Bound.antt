-- ===== src/Http/Stub/Bound.antt =====
-- The bound of the table in net/http_client/curl_stub.cpp.
use chroutine.Prelude.{
  ℕ, suc, ◌≤◌, ◌≡◌, refl, inl, inr, Option, none, some, List, [], ◌∷◌, length, is_nil, ltb, arith,
  Bool-cases,
}
use chroutine.Http.Stub.{
  Stub, Message, max_concurrent, attach, attach_handle, assign, fill, add_todo_to_doing, find,
  erase, clean, settle, answer, read_and_clean, select,
}

length-assign : (h p : ℕ) (m : List (ℕ × ℕ)) → length (assign h p m) ≤ suc (length m)
unfolding assign
length-assign h p [] = omega arith
length-assign h p ((k, q) ∷ m) = ground (arith, length-assign h p m)

length-erase : (h : ℕ) (m : List (ℕ × ℕ)) → length (erase h m) ≤ length m
unfolding erase
length-erase h [] = omega arith
length-erase h ((k, q) ∷ m) = ground (arith, length-erase h m)

length-attach_handle :
    (p : ℕ) (handle : Option ℕ) (s : Stub)
    → length (attach_handle p handle s).doing ≤ suc (length s.doing)
unfolding attach_handle
length-attach_handle p none s = omega arith
length-attach_handle p (some h) s = length-assign h p s.doing

length-attach : (p : ℕ) (s : Stub) → length (attach p s).doing ≤ suc (length s.doing)
unfolding attach
length-attach p s = ground (arith, length-attach_handle p (s.requests p).curl_ptr s)

length-fill :
    (ps : List ℕ) (s : Stub)
    → length s.doing ≤ max_concurrent
    → length (fill ps s).doing ≤ max_concurrent
unfolding fill
length-fill [] s bound = bound
length-fill (p ∷ ps) s bound = elim (Bool-cases (ltb (length s.doing) max_concurrent)) [
  | inl room ↦ simp room (length-fill ps (attach p s) (ground (arith, length-attach p s)))
  | inr no_room ↦ simp no_room bound
]

length-settle :
    (m : Message) (found : Option ℕ) (s : Stub) → length (settle m found s).doing ≤ length s.doing
unfolding settle answer
length-settle m none s = omega arith
length-settle m (some p) s = ground (arith, length-erase m.easy_handle s.doing)

length-clean : (m : Message) (s : Stub) → length (clean m s).doing ≤ length s.doing
unfolding clean
length-clean m s = ground (arith, length-settle m (find m.easy_handle s.doing) s)

length-read_and_clean :
    (ms : List Message) (s : Stub) → length (read_and_clean ms s).doing ≤ length s.doing
unfolding read_and_clean
length-read_and_clean [] s = omega arith
length-read_and_clean (m ∷ ms) s =
    omega (arith, length-read_and_clean ms (clean m s), length-clean m s)

-- From a table of at most 1000 requests, `select` leaves one of at most 1000, whatever the queue and the
-- messages are, and returns its size.
pub select-bound :
    (ms : List Message) (s : Stub)
    → length s.doing ≤ max_concurrent
    → ((select ms s).0 ≡ length (select ms s).1.doing)
      × (length (select ms s).1.doing ≤ max_concurrent)
unfolding select add_todo_to_doing
select-bound ms s bound = elim (Bool-cases (is_nil (fill s.todo s).doing)) [
  | inl empty ↦ (refl, simp empty (length-fill s.todo s bound))
  | inr some_doing ↦ (
    refl,
    simp some_doing
        (omega (arith, length-read_and_clean ms (fill s.todo s), length-fill s.todo s bound)),
  )
]
