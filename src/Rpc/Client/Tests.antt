-- ===== src/Rpc/Client/Tests.antt =====
-- A call with a timeout of 2 seconds, and the theorem applied there.
use chroutine.Prelude.{arith, ◌≡◌, refl, none, some, [], ◌∷◌}
use chroutine.Prelude.Int.{pos}
use chroutine.Rpc.Client.{
  Calls, to_int, put_call, new_call, set_timeout, begin_call_sync, end_call_sync, select,
}
use chroutine.Rpc.Client.Deadline.{waited, call_sync-no_deadline}

abbrev calls : Calls
calls = record { call_at = λ a. new_call 0; deleted = []; awoken = []; faults = [] }

abbrev ready : Calls
ready = put_call 5 (set_timeout (pos 2) (new_call 0)) calls

call_sync-no_deadline_example :
    ((begin_call_sync 9 5 6 ready).0 ≡ some 2500)
    × (((waited 9 5 6 ready).call_at 6).deadline ≡ none)
    × ((select (some 6 ∷ []) (end_call_sync 6 (waited 9 5 6 ready)).1).1.faults ≡ 6 ∷ [])
unfolding to_int
call_sync-no_deadline_example =
    call_sync-no_deadline 9 5 6 (pos 2) calls refl refl (omega arith) refl
