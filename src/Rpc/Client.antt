-- ===== src/Rpc/Client.antt =====
-- net/rpc/grpc_async_client.hpp and .cpp, and grpc_sync_client_for_chroutine.hpp: the calls of a client,
-- each an object that waits for one event of the queue.
pub mod Deadline
mod Tests
use chroutine.Prelude.{
  ℕ, zero, suc, ◌+◌, ◌-◌, ◌*◌, ◌%◌, ◌^◌, Bool, true, false, Option, none, some, List, [], ◌∷◌, ◌++◌,
  ltb, ◌==◌, if◌then◌else◌,
}
use chroutine.Prelude.Int.{ℤ, pos, negsuc, positive}
use chroutine.Prelude.Ids.{contains}
use chroutine.Chroutine.{invalid_id}

-- `client_sync_call_t` with its base. `deadline` is what `set_deadline` was given, in seconds from then.
pub record Call : Type 0 where
  pub timeout_seconds : ℤ
  pub deadline : Option ℕ
  pub result : ℕ
  pub my_chroutine : ℕ
  pub chroutine_timeout_ms : ℤ

-- The objects by their addresses; `deleted` are those whose destructor has run, `faults` the deleted
-- ones that were used, and `awoken` the chroutines that were woken.
pub record Calls : Type 0 where
  pub call_at : ℕ → Call
  pub deleted : List ℕ
  pub awoken : List ℕ
  pub faults : List ℕ

-- A number as the `int` of 32 bits that it wraps to.
pub to_int : ℕ → ℤ
to_int n = let k = n % 2 ^ 32 in if ltb k (2 ^ 31) then pos k else negsuc (2 ^ 32 - k - 1)

-- `set_timeout(seconds)` of `client_sync_call_t`.
pub set_timeout : ℤ → Call → Call
set_timeout seconds c = record c {
  timeout_seconds = seconds;
  chroutine_timeout_ms =
      if positive seconds == 0 then pos 60000 else to_int (positive seconds * 1000 + 500);
}

-- The two constructors: a new call, and a copy, whose base is made anew.
pub new_call : ℕ → Call
new_call result = set_timeout (pos 3) (record {
  timeout_seconds = pos 0;
  deadline = none;
  result = result;
  my_chroutine = invalid_id;
  chroutine_timeout_ms = pos 0;
})

pub copy_call : Call → Call
copy_call other = record {
  timeout_seconds = pos 0;
  deadline = none;
  result = other.result;
  my_chroutine = other.my_chroutine;
  chroutine_timeout_ms = other.chroutine_timeout_ms;
}

-- `set_opt()`
pub set_opt : Call → Call
set_opt c =
    if positive c.timeout_seconds == 0
    then c
    else record c { deadline = some (positive c.timeout_seconds) }

abbrev pub put_call : ℕ → Call → Calls → Calls
put_call p c s = record s { call_at = λ a. if a == p then c else s.call_at a }

-- `call()` of the call at `p`: `clone_me` copies it to the new address, `set_opt` follows, and
-- `call_impl` starts the rpc with the copy as its tag.
pub call : ℕ → ℕ → Calls → Calls
call p clone s = put_call clone (set_opt (copy_call (s.call_at p))) s

-- `wait_call()` in the chroutine `current`: the time that it waits, or none, and the calls.
pub wait_call : ℕ → ℕ → Calls → Option ℕ × Calls
wait_call current p s =
    let ms = positive (s.call_at p).chroutine_timeout_ms in
    (
      if current == invalid_id then none else if ms == 0 then none else some ms,
      put_call p (record (s.call_at p) { my_chroutine = current }) s,
    )

-- `call_sync` up to the end of the wait begins, and behind it: the result, and `delete call_ptr`.
pub begin_call_sync : ℕ → ℕ → ℕ → Calls → Option ℕ × Calls
begin_call_sync current p clone s = wait_call current clone (call p clone s)

pub end_call_sync : ℕ → Calls → ℕ × Calls
end_call_sync clone s = ((s.call_at clone).result, record s { deleted = clone ∷ s.deleted })

-- `on_rsp()` of `client_sync_call_t`, by a pointer that may be to a deleted object.
pub on_rsp : ℕ → Calls → Calls
on_rsp p s =
    let c = s.call_at p in
    if contains p s.deleted
    then record s { faults = s.faults ++ p ∷ [] }
    else if c.my_chroutine == invalid_id
    then s
    else record s { awoken = s.awoken ++ c.my_chroutine ∷ [] }

-- The loop of `select` over the tags of the queue, none for one that is not ok; `n` are processed.
pub select_loop : ℕ → List (Option ℕ) → Calls → ℕ × Calls
select_loop n [] s = (n, s)
select_loop n (none ∷ es) s = (n, s)
select_loop n (some p ∷ es) s =
    let taken = if p == 0 then s else on_rsp p s in
    let later = select_loop (n + 1) es taken in if ltb 10 (n + 1) then (n + 1, taken) else later

-- `select(wait_ms)`
pub select : List (Option ℕ) → Calls → ℕ × Calls
select events s = select_loop 0 events s
