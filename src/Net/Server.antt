-- ===== src/Net/Server.antt =====
-- net/epoll/raw_tcp_server.hpp and .cpp: `raw_tcp_server_t`, the sink of its connections. Their table
-- is the addresses that the world lists as owned. What the system calls return is given.
pub mod Traffic
pub mod Echo
mod Tests
use chroutine.Prelude.{
  ℕ, zero, suc, ◌+◌, Bool, true, false, Option, none, some, List, [], ◌∷◌, ◌++◌, is_nil, ◌==◌,
  if◌then◌else◌,
}
use chroutine.Prelude.Ids.{contains, delete}
use chroutine.Channel.{Caller, Channel, Effect, Outcome, write, read}
use chroutine.Net.Socket
use chroutine.Net.Socket.{Socket, Wrote}
use chroutine.Net.Epoll.{World, put_socket, mark_destroyed, new_socket, add_fd, close_fd}
use chroutine.Prelude.Int.{ℤ, pos, negsuc}
use chroutine.Net.Drain.{drain}

-- `server_state_t`
pub data ServerState : Type 0 where
  creating starting serving : ServerState

-- A block with the socket that it came from, or goes to.
abbrev pub Packet : Type 0
Packet = ℕ × List ℕ

pub record Server : Type 0 where
  pub listener : Option ℕ
  pub state : ServerState
  pub read_chan : Channel Packet
  pub write_chan : Channel Packet

-- `on_new_data(which, data, count)`; no bytes are a null pointer or the count 0. The caller is the
-- thread that runs `select`.
pub on_new_data : Caller → ℕ → List ℕ → World → Server → Option (Outcome Packet)
on_new_data self which data_ w s =
    if contains which w.owned
    then (if is_nil data_ then none else some (write self (which, data_) false s.read_chan))
    else none

-- `read(output)` and `write(which, data, len)`, which a chroutine calls.
pub read_packet : Caller → ℕ → Server → Outcome Packet
read_packet self out_ptr s = read self out_ptr false s.read_chan

pub write_packet : Caller → ℕ → List ℕ → Server → Option (Outcome Packet)
write_packet self which data_ s =
    if which == 0
    then none
    else if is_nil data_
    then none
    else some (write self (which, data_) false s.write_chan)

-- The body of the loop of `select`: `sock->write` for a connection that is there. What `::write`
-- returns to it is a function of the socket and of its state, which every write changes.
pub send_packet : (ℕ → Socket → List Wrote) → Packet → World → World
send_packet wrotes (which, data_) w =
    if contains which w.owned
    then put_socket which (Socket.write (wrotes which (w.sockets which)) data_ (w.sockets which)).2
        w
    else w

pub select :
    Caller → (ℕ → Socket → List Wrote) → ℕ → World → Server → Option (ℕ × Channel Packet × World)
select self wrotes fuel w s = drain self (send_packet wrotes) (λ v. true) fuel s.write_chan w

-- What `start` gets for one result of `getaddrinfo`: the address of the new socket object, its
-- descriptor, and whether `epoll_ctl`, `setsockopt` and `bind` succeed.
pub record Candidate : Type 0 where
  pub address : ℕ
  pub fd : ℕ
  pub added : Bool
  pub reuse : Bool
  pub bound : Bool

pub data Started : Type 0 where
  serves : Started
  failed : ℤ → Started
  aborts : Started

-- `m_listener` is replaced: the new object is there before the old one is destroyed.
pub replace_listener : Option ℕ → World → Option World
replace_listener none w = some w
replace_listener (some old) w = elim (close_fd old w) [
  | none ↦ none
  | some w' ↦ some (mark_destroyed old w')
]

-- The loop over the results: the listener and the world, and whether it broke out.
pub try_bind : List Candidate → Option ℕ → World → Option (Bool × Option ℕ × World)
try_bind [] listener w = some (false, listener, w)
try_bind (c ∷ cs) listener w =
    let made = put_socket c.address (new_socket c.fd) w in
    let entered = if c.fd == 0 then some made else add_fd c.address c.added made in
    elim entered [
      | none ↦ none
      | some w1 ↦ elim (replace_listener listener w1) [
        | none ↦ none
        | some w2 ↦
            let later = try_bind cs (some c.address) w2 in
            if c.fd == 0
            then later
            else if c.reuse
            then (if c.bound then some (true, some c.address, w2) else later)
            else later
      ]
    ]

-- `set_is_listener(true)`
pub mark_listener : Option ℕ → World → World
mark_listener none w = w
mark_listener (some h) w = put_socket h (record (w.sockets h) { is_listener = true }) w

-- `start()` behind `getaddrinfo`, whose result is 0 if it succeeds; `listens` is what `listen` tells. A
-- loop that finds no address ends in `assert(0)`.
pub start : ℤ → List Candidate → Bool → World → Server → Option (Started × World × Server)
start (pos zero) candidates listens w s = elim (try_bind candidates s.listener w) [
  | none ↦ none
  | some (bound, listener, w') ↦
      let begun = record s { state = starting; listener = listener } in
      if bound
      then (if listens
          then some (serves, mark_listener listener w', record begun { state = serving })
          else some (failed (negsuc 0), w', begun))
      else some (aborts, w', begun)
]
start error candidates listens w s = some (failed error, w, record s { state = starting })
