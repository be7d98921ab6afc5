-- ===== src/Http/Stub.antt =====
-- net/http_client/curl_stub.hpp and .cpp: `curl_stub_t`, a queue of requests and a table of those that
-- libcurl's multi handle runs. The answers of libcurl are given.
pub mod Filling
pub mod Bound
pub mod Waits
pub mod Prepared
pub mod Answers
pub mod Life
mod Tests
use chroutine.Prelude.{
  ℕ, zero, suc, ◌+◌, Bool, true, false, Option, none, some, List, [], ◌∷◌, ◌++◌, length, is_nil,
  ltb, ◌==◌, if◌then◌else◌,
}
use chroutine.Prelude.Int.{ℤ, pos, negsuc, positive}
use chroutine.Prelude.Ids.{delete}
use chroutine.Chroutine.{invalid_id}
use chroutine.Http.Request
use chroutine.Http.Request.{Request, Response, Code, on_rsp, move_rsp, new_curl_req}

-- `requests` has the objects by their addresses; 0 is the null pointer. `doing` is the table by
-- libcurl's handles, `attached` the handles at the multi handle, and `awoken` the chroutines that
-- answers have woken.
pub record Stub : Type 0 where
  pub requests : ℕ → Request
  pub todo : List ℕ
  pub doing : List (ℕ × ℕ)
  pub attached : List ℕ
  pub awoken : List ℕ

abbrev pub put_request : ℕ → Request → Stub → Stub
put_request p r s = record s { requests = λ a. if a == p then r else s.requests a }

-- `MAX_CONCURRENT_TRANS_IN_CURLMULTI`
abbrev pub max_concurrent : ℕ
max_concurrent = 1000

-- `push_curl_req(req)`
pub push_curl_req : ℕ → Stub → ℕ × Stub
push_curl_req req s = let todo = s.todo ++ req ∷ [] in (length todo, record s { todo = todo })

-- `m_curl_req_doing_map[handle] = req`
pub assign : ℕ → ℕ → List (ℕ × ℕ) → List (ℕ × ℕ)
assign handle req [] = (handle, req) ∷ []
assign handle req ((h, p) ∷ m) =
    let later = assign handle req m in if h == handle then (handle, req) ∷ m else (h, p) ∷ later

-- The body of the loop for the request that leaves the queue, whose handle may be null.
pub attach_handle : ℕ → Option ℕ → Stub → Stub
attach_handle req none s = s
attach_handle req (some h) s = record s {
  attached = s.attached ++ h ∷ [];
  doing = assign h req s.doing;
}

pub attach : ℕ → Stub → Stub
attach req s = if req == 0 then s else attach_handle req (s.requests req).curl_ptr s

-- `add_todo_to_doing()`, by recursion on the queue.
pub fill : List ℕ → Stub → Stub
fill [] s = record s { todo = [] }
fill (req ∷ reqs) s =
    let later = fill reqs (attach req s) in
    if ltb (length s.doing) max_concurrent then later else record s { todo = req ∷ reqs }

pub add_todo_to_doing : Stub → Bool × Stub
add_todo_to_doing s = let s' = fill s.todo s in (if is_nil s'.doing then false else true, s')

-- The loop of `execute_all_async()` round `curl_multi_wait`, whose n-th call returns none, or how many
-- descriptors are ready; `run n` is the number of running handles that the n-th `curl_multi_perform`
-- tells. The result is how often it waited and performed; `none` is out of fuel.
module _ (wait : ℕ → Option ℕ) (run : ℕ → ℕ) where
  pub Turn : Type 0
  Turn = ℕ × ℕ × ℕ

  pub wait_loop : ℕ → ℕ → ℕ → ℕ → Option (ℕ × ℕ)
  wait_loop zero times timeouts performed = none
  wait_loop (suc fuel) times timeouts performed =
      let idle = wait_loop fuel (suc times) (suc timeouts) performed in
      let busy = wait_loop fuel (suc times) 0 (suc performed) in
      if run performed == 0
      then some (times, performed)
      else if ltb times 10
      then (if ltb timeouts 5
          then elim (wait times) [
            | none ↦ some (times, performed)
            | some numfds ↦ if numfds == 0 then idle else busy
          ]
          else some (times, performed))
      else some (times, performed)

  -- `execute_all_async()` has performed once before the loop.
  pub execute_all_async : ℕ → Option (ℕ × ℕ)
  execute_all_async fuel = wait_loop fuel 0 0 0

-- One message of `curl_multi_info_read`.
pub record Message : Type 0 where
  pub is_done : Bool
  pub easy_handle : ℕ
  pub rsp_code : ℤ
  pub result : ℤ

pub find : ℕ → List (ℕ × ℕ) → Option ℕ
find handle [] = none
find handle ((h, p) ∷ m) = if h == handle then some p else find handle m

-- A table has a key once.
pub erase : ℕ → List (ℕ × ℕ) → List (ℕ × ℕ)
erase handle [] = []
erase handle ((h, p) ∷ m) =
    let later = erase handle m in if h == handle then later else (h, p) ∷ later

-- `detach_multi_handler` and `on_rsp` of the request at `p`.
pub answer : Message → ℕ → Stub → Stub
answer m p s =
    let (woken, r) = on_rsp m.rsp_code m.result (s.requests p) in
    put_request p r
      (record s { attached = delete m.easy_handle s.attached; awoken = s.awoken ++ woken })

-- The body of the loop of `read_and_clean()`, and what it does for the request that it finds.
pub settle : Message → Option ℕ → Stub → Stub
settle m none s = s
settle m (some p) s =
    let told = if p == 0 then s else answer m p s in
    record told { doing = erase m.easy_handle told.doing }

pub clean : Message → Stub → Stub
clean m s = if m.is_done then settle m (find m.easy_handle s.doing) s else s

pub read_and_clean : List Message → Stub → Stub
read_and_clean [] s = s
read_and_clean (m ∷ ms) s = read_and_clean ms (clean m s)

-- `select(wait_ms)`, with the messages that libcurl has behind the loop.
pub select : List Message → Stub → ℕ × Stub
select messages s =
    let (any, filled) = add_todo_to_doing s in
    let cleaned = if any then read_and_clean messages filled else filled in
    (length cleaned.doing, cleaned)

-- What the caller of `exec_curl` gives, with 0 for a null pointer.
pub record Order : Type 0 where
  pub url : List ℕ
  pub connect_timeout : ℤ
  pub timeout : ℤ
  pub w_func : ℕ
  pub w_func_handler : ℕ

-- The request that `exec_curl` makes. `set` is what `curl_easy_setopt` returns, `func` and
-- `rsp_address` are those of `make_default_opts`.
pub set_timeouts : Code → Order → Request → Request
set_timeouts set o r =
    let r1 =
      if positive o.connect_timeout == 0
      then r
      else if positive o.connect_timeout == 30000
      then r
      else (Request.set_connect_timeout set o.connect_timeout r).1 in
    if positive o.timeout == 0
    then r1
    else if positive o.timeout == 60000
    then r1
    else (Request.set_timeout set o.timeout r1).1

pub prepare : Code → ℕ → ℕ → ℕ → Option ℕ → Order → Request
prepare set func rsp_address chroutine_id handle o =
    let made = record (new_curl_req 0 handle) { my_chroutine = chroutine_id } in
    let r = (Request.set_url set o.url (Request.make_default_opts set func rsp_address made)).1 in
    let r1 = set_timeouts set o r in
    if o.w_func == 0
    then r1
    else if o.w_func_handler == 0
    then r1
    else (Request.set_data_slot set o.w_func o.w_func_handler r1).1

-- `exec_curl` up to where it waits: none if it returns the null pointer; else the stub, and the time
-- that it waits for the son, or none if it does not wait. `address` is the new request's.
pub exec_curl : Code → ℕ → ℕ → ℕ → ℕ → Option ℕ → Order → Stub → Option (Option ℕ × Stub)
exec_curl set func rsp_address chroutine_id address handle o s =
    let r = prepare set func rsp_address chroutine_id handle o in
    if chroutine_id == invalid_id
    then none
    else if address == 0
    then none
    else some (
      if positive o.timeout == 0 then none else some (positive o.timeout),
      (push_curl_req address (put_request address r s)).1,
    )

-- The return of `exec_curl`: the response is moved out of the request.
pub return_rsp : ℕ → Stub → Response × Stub
return_rsp address s =
    let (rsp, left) = move_rsp (s.requests address).rsp in
    (rsp, put_request address (record (s.requests address) { rsp = left }) s)
