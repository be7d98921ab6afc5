-- ===== src/Http/Stub/Answers.antt =====
-- `read_and_clean` and `exec_curl` of net/http_client: which requests are answered, and who is woken.
use chroutine.Prelude.{
  ℕ, ◌≡◌, refl, sym, ap, ◌∙◌, inl, inr, Bool, true, false, Option, none, some, List, [], ◌∷◌, ◌++◌,
  ◌==◌, ==_iff, if◌then◌else◌, arith, Bool-cases,
}
use chroutine.Prelude.Int.{positive}
use chroutine.Chroutine.{invalid_id}
use chroutine.Http.Request.{Request, Response, Code, new_rsp, on_rsp, move_rsp, new_curl_req}
use chroutine.Http.Stub.Prepared.{kept-prepare}
use chroutine.Http.Stub.{
  Stub, Message, Order, find, erase, settle, clean, answer, read_and_clean, exec_curl, return_rsp,
  prepare, push_curl_req, put_request,
}

-- No message of the list ends the transfer of the handle `h`.
abbrev pub is_open : List Message → ℕ → Bool
is_open [] h = true
is_open (m ∷ ms) h =
    if m.is_done then (if h == m.easy_handle then false else is_open ms h) else is_open ms h

abbrev pub keep : (ℕ → Bool) → List (ℕ × ℕ) → List (ℕ × ℕ)
keep test [] = []
keep test ((h, p) ∷ m) = if test h then (h, p) ∷ keep test m else keep test m

pub erase_missing : (h : ℕ) (m : List (ℕ × ℕ)) → find h m ≡ none → erase h m ≡ m
unfolding find erase
erase_missing h [] fresh = refl
erase_missing h ((k, q) ∷ m) fresh = elim (Bool-cases (k == h)) [
  | inl same ↦ ground (arith, same)
  | inr differs ↦ ground (arith, differs, erase_missing h m)
]

doing-settle :
    (m : Message) (found : Option ℕ) (s : Stub)
    → find m.easy_handle s.doing ≡ found
    → (settle m found s).doing ≡ erase m.easy_handle s.doing
unfolding settle answer
doing-settle m none s missing = sym (erase_missing m.easy_handle s.doing missing)
doing-settle m (some p) s there = elim (Bool-cases (p == 0)) [
  | inl null ↦ simp null refl
  | inr object ↦ simp object refl
]

doing-clean :
    (m : Message) (s : Stub)
    → (clean m s).doing ≡ (if m.is_done then erase m.easy_handle s.doing else s.doing)
unfolding clean
doing-clean m s = elim (Bool-cases m.is_done) [
  | inl done ↦ simp done (doing-settle m (find m.easy_handle s.doing) s refl)
  | inr other ↦ simp other refl
]

keep-erase :
    (h : ℕ) (ms : List Message) (l : List (ℕ × ℕ))
    → keep (is_open ms) (erase h l) ≡ keep (λ k. if k == h then false else is_open ms k) l
unfolding erase
keep-erase h ms [] = refl
keep-erase h ms ((k, q) ∷ l) = elim (Bool-cases (k == h)) [
  | inl same ↦ simp same (keep-erase h ms l)
  | inr differs ↦
      simp differs (ap (λ r. if is_open ms k then (k, q) ∷ r else r) (keep-erase h ms l))
]

keep-done :
    (done : Bool) (h : ℕ) (ms : List Message) (l : List (ℕ × ℕ))
    → keep (is_open ms) (if done then erase h l else l)
      ≡ keep (λ k. if done then (if k == h then false else is_open ms k) else is_open ms k) l
keep-done true h ms l = keep-erase h ms l
keep-done false h ms l = refl

keep_all : (l : List (ℕ × ℕ)) → keep (is_open []) l ≡ l
keep_all [] = refl
keep_all ((h, p) ∷ l) = ap (λ r. (h, p) ∷ r) (keep_all l)

-- Behind `read_and_clean` the table has just the requests whose transfers no message has ended, in
-- their order.
pub doing-read_and_clean :
    (ms : List Message) (s : Stub) → (read_and_clean ms s).doing ≡ keep (is_open ms) s.doing
unfolding read_and_clean
doing-read_and_clean [] s = sym (keep_all s.doing)
doing-read_and_clean (m ∷ ms) s =
    doing-read_and_clean ms (clean m s)
    ∙ ap (keep (is_open ms)) (doing-clean m s)
    ∙ keep-done m.is_done m.easy_handle ms s.doing

pub clean-answered :
    (m : Message) (p : ℕ) (s : Stub)
    → m.is_done ≡ true
    → find m.easy_handle s.doing ≡ some p
    → (p == 0) ≡ false
    → clean m s ≡ record (answer m p s) { doing = erase m.easy_handle s.doing }
unfolding clean settle answer
clean-answered m p s done there object =
    ap (λ b. if b then settle m (find m.easy_handle s.doing) s else s) done
    ∙ ap (λ f. settle m f s) there
    ∙ ap
        (λ b.
          let told = if b then s else answer m p s in
          record told { doing = erase m.easy_handle told.doing })
        object

rsp-answer :
    (m : Message) (p : ℕ) (s : Stub)
    → ((answer m p s).requests p).rsp
      ≡ record (s.requests p).rsp { rsp_code = m.rsp_code; data_result = m.result }
unfolding answer on_rsp
rsp-answer m p s =
    ap
      (λ (b : Bool).
        (if b then (on_rsp m.rsp_code m.result (s.requests p)).1 else s.requests p).rsp)
      ((==_iff p p).1 refl)

-- For a message that ends a transfer in the table, whose request is there and knows its chroutine: just
-- that chroutine is woken, and the response that it gets by `exec_curl` has the codes of the message;
-- the response is moved out, and its buffer stays behind as null.
pub clean-return_rsp :
    (m : Message) (p : ℕ) (s : Stub)
    → m.is_done ≡ true
    → find m.easy_handle s.doing ≡ some p
    → (p == 0) ≡ false
    → ((s.requests p).my_chroutine == invalid_id) ≡ false
    → let told = clean m s in
      (told.awoken ≡ s.awoken ++ (s.requests p).my_chroutine ∷ [])
      × ((return_rsp p told).0.rsp_code ≡ m.rsp_code)
      × ((return_rsp p told).0.data_result ≡ m.result)
      × (((return_rsp p told).1.requests p).rsp.buf ≡ none)
unfolding return_rsp on_rsp move_rsp answer
clean-return_rsp m p s done there object known =
    let answered = clean-answered m p s done there object in
    let told = ap (λ (t : Stub). (t.requests p).rsp) answered ∙ rsp-answer m p s in
    (
      ap (λ (t : Stub). t.awoken) answered
          ∙ ap (λ b. s.awoken ++ (if b then [] else (s.requests p).my_chroutine ∷ [])) known,
      ap (λ (r : Response). r.rsp_code) told,
      ap (λ (r : Response). r.data_result) told,
      ap (λ (b : Bool). (if b then left_of (clean m s) else (clean m s).requests p).rsp.buf)
          ((==_iff p p).1 refl),
    )
  where
    left_of : Stub → Request
    left_of t = record (t.requests p) { rsp = record (t.requests p).rsp { buf = none } }

-- A caller that is a chroutine and gives a timeout that is not positive, with memory for the request:
-- `exec_curl` queues the request behind the others and does not wait, and the response that it returns
-- is the one that no answer has reached, with both codes -1.
pub exec_curl-no_wait :
    (set : Code) (func rsp_address chroutine_id address : ℕ) (handle : Option ℕ) (o : Order)
    (s : Stub)
    → (chroutine_id == invalid_id) ≡ false
    → (address == 0) ≡ false
    → positive o.timeout ≡ 0
    → (s' : Stub) × (exec_curl set func rsp_address chroutine_id address handle o s
        ≡ some (none, s'))
      × (s'.todo ≡ s.todo ++ address ∷ [])
      × ((return_rsp address s').0 ≡ new_rsp)
unfolding exec_curl push_curl_req return_rsp move_rsp new_curl_req
exec_curl-no_wait set func rsp_address chroutine_id address handle o s known object no_time =
    let r = prepare set func rsp_address chroutine_id handle o in
    (
      (push_curl_req address (put_request address r s)).1,
      ap (λ b. if b then none else waits (address == 0) (positive o.timeout == 0)) known
          ∙ ap (λ b. waits b (positive o.timeout == 0)) object
          ∙ ap (λ b. waits false b) ((==_iff (positive o.timeout) 0).1 no_time),
      refl,
      ap (λ (b : Bool). (if b then r else s.requests address).rsp) ((==_iff address address).1 refl)
          ∙ kept-prepare (λ q. q.rsp) (λ settings q. refl) set o func rsp_address chroutine_id
              handle,
    )
  where
    waits : Bool → Bool → Option (Option ℕ × Stub)
    waits null at_once =
        if null
        then none
        else some (
          if at_once then none else some (positive o.timeout),
          (push_curl_req address
              (put_request address (prepare set func rsp_address chroutine_id handle o) s)).1,
        )
