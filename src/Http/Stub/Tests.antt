-- ===== src/Http/Stub/Tests.antt =====
-- A stub with three requests, one of them at work, and the theorems applied there.
use chroutine.Prelude.{ℕ, List, ◌+◌, ◌≤◌, ◌≡◌, refl, true, none, some, [], ◌∷◌, length, arith}
use chroutine.Prelude.Int.{pos}
use chroutine.Prelude.Ids.{count}
use chroutine.Http.Request.{Request, code, type_get, new_rsp}
use chroutine.Http.Stub.{
  Stub, Message, max_concurrent, add_todo_to_doing, select, execute_all_async, clean, return_rsp,
  find,
}
use chroutine.Http.Stub.Life.{IsLive, owed}
use chroutine.Http.Stub.Life.History.{Act, asks, selects, asked, run, run-owed}
use chroutine.Http.Stub.Filling.{moved, add_todo_to_doing_lem}
use chroutine.Http.Stub.Bound.{select-bound}
use chroutine.Http.Stub.Waits.{Bounded, execute_all_async-Bounded}
use chroutine.Http.Stub.Answers.{clean-return_rsp}

-- The request at `p`, of the chroutine 9, has the handle `p + 100`.
abbrev request_at : ℕ → Request
request_at p = record {
  curl_ptr = some (p + 100);
  type = type_get;
  req_id = 0;
  rsp = new_rsp;
  my_chroutine = 9;
  post_buf = none;
  settings = [];
}

abbrev stub : Stub
stub = record {
  requests = request_at;
  todo = 1 ∷ 2 ∷ [];
  doing = (103, 3) ∷ [];
  attached = 103 ∷ [];
  awoken = [];
}

abbrev message : Message
message = record { is_done = true; easy_handle = 103; rsp_code = pos 200; result = pos 0 }

add_todo_to_doing_lem_example : add_todo_to_doing stub ≡ (true, moved 999 (1 ∷ 2 ∷ []) stub)
unfolding find
add_todo_to_doing_lem_example =
    add_todo_to_doing_lem stub (omega arith) ((refl, refl, refl, (refl, refl, refl, tt)))

select-bound_example :
    ((select (message ∷ []) stub).0 ≡ length (select (message ∷ []) stub).1.doing)
    × (length (select (message ∷ []) stub).1.doing ≤ max_concurrent)
select-bound_example = select-bound (message ∷ []) stub (omega arith)

execute_all_async-Bounded_example :
    Bounded (λ n. some 0) (λ n. 2) 0 0 (execute_all_async (λ n. some 0) (λ n. 2) 11)
execute_all_async-Bounded_example =
    execute_all_async-Bounded (λ n. some 0) (λ n. 2) 11 (omega arith)

clean-return_rsp_example :
    ((clean message stub).awoken ≡ 9 ∷ [])
    × ((return_rsp 3 (clean message stub)).0.rsp_code ≡ pos 200)
    × ((return_rsp 3 (clean message stub)).0.data_result ≡ pos 0)
    × (((return_rsp 3 (clean message stub)).1.requests 3).rsp.buf ≡ none)
unfolding find
clean-return_rsp_example = clean-return_rsp message 3 stub refl refl refl refl

-- The chroutine 4 asks, and then the transfer of the handle 103 ends.
abbrev history : List Act
history =
    asks (record {
      set = code 0;
      func = 1;
      rsp_address = 2;
      chroutine_id = 4;
      address = 5;
      curl_handle = some 105;
      order = record {
        url = 47 ∷ [];
        connect_timeout = pos 0;
        timeout = pos 100;
        w_func = 0;
        w_func_handler = 0;
      };
    })
    ∷ selects (message ∷ [])
    ∷ []

run-owed_example :
    IsLive (run history stub)
    × ((c : ℕ) → count c (owed (run history stub)) ≡ count c (owed stub) + count c (asked history))
run-owed_example =
    run-owed history stub
      (record {
        ready = ((refl, refl, refl), ((refl, refl, refl), ((refl, refl, refl), tt)));
        keyed = (refl, tt);
        apart = (refl, (refl, (refl, tt)));
      })
      ((refl, (105, refl, refl)), (tt, tt))
