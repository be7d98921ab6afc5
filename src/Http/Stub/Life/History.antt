-- ===== src/Http/Stub/Life/History.antt =====
-- Any history of calls of `exec_curl` and `select` of net/http_client/curl_stub.cpp.
use chroutine.Prelude.{
  ℕ, ◌+◌, ◌≡◌, refl, sym, ap, ap₂, ◌∙◌, inl, inr, false, Option, none, some, List, [], ◌∷◌, ◌++◌,
  subst, ◌==◌, if◌then◌else◌, is_nil, arith, Bool-cases,
}
use chroutine.Prelude.Ids.{contains, Distinct, count, count-append}
use chroutine.Chroutine.{invalid_id}
use chroutine.Http.Request.{Request, Code, new_curl_req}
use chroutine.Http.Stub.{
  Stub, Message, Order, fill, add_todo_to_doing, select, exec_curl, prepare, push_curl_req,
}
use chroutine.Http.Stub.Filling.{handle_of, handles}
use chroutine.Http.Stub.Prepared.{kept-prepare}
use chroutine.Http.Stub.Life.{keys, live, callers, owed, AllReady, Keyed, IsLive}
use chroutine.Http.Stub.Life.Pushes.{pushed-IsLive, pushed-owed}
use chroutine.Http.Stub.Life.Fills.{fill-Carries}
use chroutine.Http.Stub.Life.Cleans.{Owes, read_and_clean-Owes}

-- The arguments of `exec_curl`, and what `curl_easy_init` returns in it, none for the null pointer.
pub record Call : Type 0 where
  pub set : Code
  pub func : ℕ
  pub rsp_address : ℕ
  pub chroutine_id : ℕ
  pub address : ℕ
  pub curl_handle : Option ℕ
  pub order : Order

pub data Act : Type 0 where
  asks : Call → Act
  selects : List Message → Act

-- The stub behind `exec_curl`, which is the same if it returns the null pointer.
abbrev pub left_behind : Stub → Option (Option ℕ × Stub) → Stub
left_behind s none = s
left_behind s (some (time, s')) = s'

pub act : Act → Stub → Stub
act (asks a) s =
    left_behind s
      (exec_curl a.set a.func a.rsp_address a.chroutine_id a.address a.curl_handle a.order s)
act (selects messages) s = (select messages s).1

pub run : List Act → Stub → Stub
run [] s = s
run (x ∷ xs) s = run xs (act x s)

-- The chroutines whose calls are not refused.
abbrev pub asked : List Act → List ℕ
asked [] = []
asked (asks a ∷ xs) =
    (if a.chroutine_id == invalid_id
      then []
      else if a.address == 0
      then []
      else a.chroutine_id ∷ [])
    ++ asked xs
asked (selects messages ∷ xs) = asked xs

-- A new request is none of those in use, and it has a new handle.
abbrev pub IsNew : Act → Stub → Type 0
IsNew (asks a) s =
    (contains a.address (live s) ≡ false)
    × ((h : ℕ) × (a.curl_handle ≡ some h)
        × (contains h (keys s.doing ++ handles s.requests s.todo) ≡ false))
IsNew (selects messages) s = Unit

abbrev pub AllNew : List Act → Stub → Type 0
AllNew [] s = Unit
AllNew (x ∷ xs) s = IsNew x s × AllNew xs (act x s)

fill-Owes : (s : Stub) → IsLive s → Owes s (fill s.todo s)
fill-Owes s l =
    let (all_live, all_keys, same, woken, keyed) = fill-Carries s.todo s l.ready l.keyed l.apart in
    let s' = fill s.todo s in
    let handles_same = ap (λ r. keys s'.doing ++ handles r s'.todo) same ∙ all_keys in
    let callers_same = ap₂ callers same all_live in
    (
      record {
        ready =
            subst (AllReady s'.requests) (sym all_live)
              (subst (λ r. AllReady r (live s)) (sym same) l.ready);
        keyed = subst (λ r. Keyed r s'.doing) (sym same) keyed;
        apart = subst Distinct (sym handles_same) l.apart;
      },
      λ c. ap₂ (λ xs ys. count c (xs ++ ys)) woken callers_same,
    )

select-Owes : (ms : List Message) (s : Stub) → IsLive s → Owes s (select ms s).1
unfolding select add_todo_to_doing
select-Owes ms s l =
    let (next, first) = fill-Owes s l in
    elim (Bool-cases (is_nil (fill s.todo s).doing)) [
      | inl empty ↦ simp empty (next, first)
      | inr some_doing ↦ simp some_doing (
          let (last, rest) = read_and_clean-Owes ms (fill s.todo s) next in
          (last, λ c. rest c ∙ first c))
    ]

module _ (a : Call) (h : ℕ) (given : a.curl_handle ≡ some h) (s : Stub) where
  abbrev new_request : Request
  new_request = prepare a.set a.func a.rsp_address a.chroutine_id a.curl_handle a.order

  handle-new_request : new_request.curl_ptr ≡ some h
  unfolding new_curl_req
  handle-new_request =
      kept-prepare (λ r. r.curl_ptr) (λ settings r. refl) a.set a.order a.func a.rsp_address
        a.chroutine_id a.curl_handle
      ∙ given

  handle_of-new_request : handle_of new_request ≡ h
  handle_of-new_request = ap (λ o. elim o [ none ↦ 0 | some p ↦ p ]) handle-new_request

  caller-new_request : new_request.my_chroutine ≡ a.chroutine_id
  unfolding new_curl_req
  caller-new_request =
      kept-prepare (λ r. r.my_chroutine) (λ settings r. refl) a.set a.order a.func a.rsp_address
        a.chroutine_id a.curl_handle

  asks-Owes :
      IsLive s
      → contains a.address (live s) ≡ false
      → contains h (keys s.doing ++ handles s.requests s.todo) ≡ false
      → IsLive (act (asks a) s)
        × ((c : ℕ)
            → count c (owed (act (asks a) s)) ≡ count c (owed s) + count c (asked (asks a ∷ [])))
  unfolding act exec_curl push_curl_req
  asks-Owes l absent new = elim (Bool-cases (a.chroutine_id == invalid_id)) [
    | inl unknown ↦ simp unknown (l, λ c. omega arith)
    | inr known ↦ elim (Bool-cases (a.address == 0)) [
      | inl null ↦ simp known (simp null (l, λ c. omega arith))
      | inr object ↦ simp known (
          simp object (
            pushed-IsLive a.address new_request s l absent
                (subst (λ k. contains k (keys s.doing ++ handles s.requests s.todo) ≡ false)
                  (sym handle_of-new_request) new)
                (
                  object,
                  handle-new_request ∙ ap some (sym handle_of-new_request),
                  ap (λ i. i == invalid_id) caller-new_request ∙ known,
                ),
            λ c.
                pushed-owed a.address new_request s absent c
                ∙ ap (λ i. count c (owed s) + count c (i ∷ [])) caller-new_request,
          ))
    ]
  ]

act-Owes :
    (x : Act) (s : Stub)
    → IsLive s
    → IsNew x s
    → IsLive (act x s)
      × ((c : ℕ) → count c (owed (act x s)) ≡ count c (owed s) + count c (asked (x ∷ [])))
unfolding act
act-Owes (asks a) s l (absent, (h, given, new)) = asks-Owes a h given s l absent new
act-Owes (selects ms) s l new =
    let (next, same) = select-Owes ms s l in (next, λ c. omega (arith, same c))

asked-cons :
    (x : Act) (xs : List Act) (c : ℕ)
    → count c (asked (x ∷ xs)) ≡ count c (asked (x ∷ [])) + count c (asked xs)
asked-cons (asks a) xs c = ground (arith, count-append c)
asked-cons (selects ms) xs c = omega arith

-- From a well-formed stub, over any history of `exec_curl` and `select` and any messages of libcurl, where
-- each `curl_easy_init` succeeds, and a new request and its handle are none of those in use: the stub
-- stays well-formed, and each chroutine is woken, or has a request in the queue or the table that will
-- wake it, just as often as that was so at first and as it has called `exec_curl` with success since.
pub run-owed :
    (xs : List Act) (s : Stub)
    → IsLive s
    → AllNew xs s
    → IsLive (run xs s)
      × ((c : ℕ) → count c (owed (run xs s)) ≡ count c (owed s) + count c (asked xs))
unfolding run
run-owed [] s l new = (l, λ c. omega arith)
run-owed (x ∷ xs) s l (new, later) =
    let (next, first) = act-Owes x s l new in
    let (last, rest) = run-owed xs (act x s) next later in
    (last, λ c. omega (arith, rest c, first c, asked-cons x xs c))
