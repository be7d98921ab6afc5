-- ===== src/Http/Stub/Filling.antt =====
-- `add_todo_to_doing` of net/http_client/curl_stub.cpp against a description by numbers.
use chroutine.Prelude.{
  ℕ, zero, suc, ◌+◌, ◌-◌, ◌≤◌, ◌≡◌, refl, sym, ap, ◌∙◌, inl, inr, true, false, none, some, List, [],
  ◌∷◌, ◌++◌, length, length-append, take, drop, is_nil, ltb, ◌==◌, if◌then◌else◌, arith, Bool-cases,
  append_assoc, append-nil,
}
use chroutine.Http.Request.{Request}
use chroutine.Http.Stub.{
  Stub, max_concurrent, attach, attach_handle, assign, fill, add_todo_to_doing, find,
}

-- The table's entry for the request at `p`; a null handle counts as 0.
abbrev pub handle_of : Request → ℕ
handle_of r = elim r.curl_ptr [ none ↦ 0 | some h ↦ h ]

abbrev pub entries : (ℕ → Request) → List ℕ → List (ℕ × ℕ)
entries requests [] = []
entries requests (p ∷ ps) = (handle_of (requests p), p) ∷ entries requests ps

abbrev pub handles : (ℕ → Request) → List ℕ → List ℕ
handles requests [] = []
handles requests (p ∷ ps) = handle_of (requests p) ∷ handles requests ps

-- The requests of a queue are there and have handles, which differ and are not in the table.
abbrev pub AllReady : (ℕ → Request) → List ℕ → List (ℕ × ℕ) → Type 0
AllReady requests [] doing = Unit
AllReady requests (p ∷ ps) doing =
    ((p == 0) ≡ false)
    × ((requests p).curl_ptr ≡ some (handle_of (requests p)))
    × (find (handle_of (requests p)) doing ≡ none)
    × AllReady requests ps (doing ++ (handle_of (requests p), p) ∷ [])

-- The stub when the first `n` of the queue `ps` are in the table.
abbrev pub moved : ℕ → List ℕ → Stub → Stub
moved n ps s = record s {
  todo = drop n ps;
  doing = s.doing ++ entries s.requests (take n ps);
  attached = s.attached ++ handles s.requests (take n ps);
}

assign_fresh : (h p : ℕ) (m : List (ℕ × ℕ)) → find h m ≡ none → assign h p m ≡ m ++ (h, p) ∷ []
unfolding assign find
assign_fresh h p [] fresh = refl
assign_fresh h p ((k, q) ∷ m) fresh = elim (Bool-cases (k == h)) [
  | inl same ↦ ground (arith, same)
  | inr differs ↦ ground (arith, differs, assign_fresh h p m)
]

abbrev pub entered : ℕ → Stub → Stub
entered p s = record s {
  attached = s.attached ++ handle_of (s.requests p) ∷ [];
  doing = s.doing ++ (handle_of (s.requests p), p) ∷ [];
}

pub attach-entered :
    (p : ℕ) (s : Stub)
    → (p == 0) ≡ false
    → (s.requests p).curl_ptr ≡ some (handle_of (s.requests p))
    → find (handle_of (s.requests p)) s.doing ≡ none
    → attach p s ≡ entered p s
unfolding attach attach_handle
attach-entered p s there has_handle fresh = simp there (
    ap (λ handle. attach_handle p handle s) has_handle
    ∙ ap (λ m. record s { attached = s.attached ++ handle_of (s.requests p) ∷ []; doing = m })
        (assign_fresh (handle_of (s.requests p)) p s.doing fresh))

moved-entered :
    (n p : ℕ) (ps : List ℕ) (s : Stub) → moved n ps (entered p s) ≡ moved (suc n) (p ∷ ps) s
moved-entered n p ps s =
    ap (λ (m : List (ℕ × ℕ) × List ℕ). record s { todo = drop n ps; doing = m.0; attached = m.1 })
      (ap
          (λ d.
            (d, (s.attached ++ handle_of (s.requests p) ∷ []) ++ handles s.requests (take n ps)))
          (append_assoc s.doing ((handle_of (s.requests p), p) ∷ [])
            (entries s.requests (take n ps)))
        ∙ ap (λ l. (s.doing ++ (handle_of (s.requests p), p) ∷ entries s.requests (take n ps), l))
            (append_assoc s.attached (handle_of (s.requests p) ∷ [])
              (handles s.requests (take n ps))))

moved-none : (ps : List ℕ) (s : Stub) → record s { todo = ps } ≡ moved zero ps s
moved-none ps s =
    ap (λ (m : List (ℕ × ℕ) × List ℕ). record s { todo = ps; doing = m.0; attached = m.1 })
      (ap (λ d. (d, s.attached)) (sym (append-nil s.doing))
        ∙ ap (λ l. (s.doing ++ [], l)) (sym (append-nil s.attached)))

fill-moved :
    (n : ℕ) (ps : List ℕ) (s : Stub)
    → n + length s.doing ≡ max_concurrent
    → AllReady s.requests ps s.doing
    → fill ps s ≡ moved n ps s
unfolding fill
fill-moved zero [] s full ready = moved-none [] s
fill-moved (suc n) [] s full ready = moved-none [] s
fill-moved zero (p ∷ ps) s full ready =
    let no_room : ltb (length s.doing) max_concurrent ≡ false = ground arith in
    simp no_room (moved-none (p ∷ ps) s)
fill-moved (suc n) (p ∷ ps) s full (there, has_handle, fresh, ready) =
    let room : ltb (length s.doing) max_concurrent ≡ true = ground arith in
    simp room (
      ap (fill ps) (attach-entered p s there has_handle fresh)
      ∙ fill-moved n ps (entered p s)
          (omega (arith, full, length-append s.doing ((handle_of (s.requests p), p) ∷ []))) ready
      ∙ moved-entered n p ps s)

-- For a table of at most 1000 and a queue of requests that are there and have handles, all of them
-- different and new: the first of the queue, as many as are free in the table, are attached and entered
-- in their order, and the others stay in the queue; the result tells if the table is not empty.
pub add_todo_to_doing_lem :
    (s : Stub)
    → length s.doing ≤ max_concurrent
    → AllReady s.requests s.todo s.doing
    → add_todo_to_doing s ≡ (
        let s' = moved (max_concurrent - length s.doing) s.todo s in
        (if is_nil s'.doing then false else true, s'))
unfolding add_todo_to_doing
add_todo_to_doing_lem s bound ready =
    ap (λ (t : Stub). (if is_nil t.doing then false else true, t))
      (fill-moved (max_concurrent - length s.doing) s.todo s (omega (arith, bound)) ready)
