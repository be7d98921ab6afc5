-- ===== src/Rpc/Server.antt =====
-- net/rpc/grpc_async_server.hpp and .cpp: `call_round_it` and `grpc_async_server_it`. The virtual
-- functions of the interfaces are `create_me`, whose result is given, and `request_service` and
-- `do_work`, whose calls are listed.
pub mod Listening
mod Tests
use chroutine.Prelude.{
  ℕ, ◌+◌, Bool, true, false, Option, none, some, List, [], ◌∷◌, ◌++◌, ltb, ◌==◌, if◌then◌else◌,
}
use chroutine.Prelude.Int.{ℤ, pos}

-- `call_step_t`
pub data CallStep : Type 0 where
  create process finish : CallStep

-- `call_round_it`; `service` is the interface that it serves.
pub record Round : Type 0 where
  pub address : ℕ
  pub service : ℕ
  pub step : CallStep

-- `built` tells if the pointers to gRPC's server and queue are set. `rounds` are the objects that are there. `requested` has the rounds that asked for a call, `working`
-- those whose `do_work` runs in a new chroutine, and `faults` the tags without an object.
pub record RpcServer : Type 0 where
  pub running : Bool
  pub built : Bool
  pub rounds : List Round
  pub requested : List ℕ
  pub working : List ℕ
  pub faults : List ℕ

pub find_round : ℕ → List Round → Option Round
find_round tag [] = none
find_round tag (r ∷ rs) = if r.address == tag then some r else find_round tag rs

pub set_step : ℕ → CallStep → List Round → List Round
set_step tag step [] = []
set_step tag step (r ∷ rs) =
    let later = set_step tag step rs in
    if r.address == tag then record r { step = step } ∷ rs else r ∷ later

pub delete_round : ℕ → List Round → List Round
delete_round tag [] = []
delete_round tag (r ∷ rs) =
    let later = delete_round tag rs in if r.address == tag then rs else r ∷ later

-- `process()` in the step `CREATE`.
pub request : ℕ → RpcServer → RpcServer
request tag s = record s {
  rounds = set_step tag process s.rounds;
  requested = s.requested ++ tag ∷ [];
}

-- A new round, which its constructor leaves in the step `CREATE`, and its first `process()`.
pub listen : ℕ → ℕ → RpcServer → RpcServer
listen address service s = request address (record s {
  rounds = record { address = address; service = service; step = create } ∷ s.rounds;
})

-- `re_serve()`, where `made` is what `create_me` returns; none is the null pointer.
pub re_serve : Option ℕ → ℕ → RpcServer → RpcServer
re_serve none service s = s
re_serve (some address) service s = listen address service s

-- `process()` of the round at `tag`.
pub process_step : CallStep → ℕ → ℕ → Option ℕ → RpcServer → RpcServer
process_step create tag service made s = request tag s
process_step process tag service made s =
    let served = re_serve made service (record s { rounds = set_step tag finish s.rounds }) in
    record served { working = served.working ++ tag ∷ [] }
process_step finish tag service made s = record s { rounds = delete_round tag s.rounds }

pub process_found : Option Round → ℕ → Option ℕ → RpcServer → RpcServer
process_found none tag made s = record s { faults = s.faults ++ tag ∷ [] }
process_found (some r) tag made s = process_step r.step tag r.service made s

pub process_round : ℕ → Option ℕ → RpcServer → RpcServer
process_round tag made s = process_found (find_round tag s.rounds) tag made s

-- One event of the queue, with what `create_me` returns if it is called for it.
pub record Event : Type 0 where
  pub tag : ℕ
  pub ok : Bool
  pub made : Option ℕ

abbrev pub take_event : Event → RpcServer → RpcServer
take_event e s = if e.tag == 0 then s else process_round e.tag e.made s

-- The loop of `select`, which has processed `n` events. An event that is not ok is taken and ends it.
pub select_loop : ℕ → List Event → RpcServer → ℕ × RpcServer
select_loop n [] s = (n, s)
select_loop n (e ∷ es) s =
    let later = select_loop (n + 1) es (take_event e s) in
    if e.ok then (if ltb 100 (n + 1) then (n + 1, take_event e s) else later) else (n, s)

-- `select(wait_ms)`
pub select : List Event → RpcServer → ℕ × RpcServer
select events s = if s.running then select_loop 0 events s else (0, s)

-- `start(addr)`: `start_grpc_server` returns 0, and `listen_requests` makes a round for each interface.
pub listen_requests : List (ℕ × ℕ) → RpcServer → RpcServer
listen_requests [] s = s
listen_requests ((address, service) ∷ more) s = listen_requests more (listen address service s)

pub start : List (ℕ × ℕ) → RpcServer → ℤ × RpcServer
start interfaces s =
    if s.running
    then (pos 0, s)
    else (pos 0, record (listen_requests interfaces (record s { built = true })) { running = true })

-- `stop()`, which the destructor calls too: `none` is a call through a null pointer.
pub stop : RpcServer → Option (ℤ × RpcServer)
stop s =
    let stopped = record s { running = false } in if s.built then some (pos 0, stopped) else none
