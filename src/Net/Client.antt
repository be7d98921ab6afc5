-- ===== src/Net/Client.antt =====
-- net/epoll/raw_tcp_client.hpp and .cpp: `raw_tcp_client_t`, the sink of its one socket. What the
-- system calls return is given; `connect` is cut where it waits for the result.
pub mod Connecting
pub mod Writing
mod Tests
use chroutine.Prelude.{
  ℕ, zero, Bool, true, false, Option, none, some, List, [], ◌∷◌, is_nil, ◌==◌, if◌then◌else◌,
}
use chroutine.Prelude.Int.{ℤ, pos, negsuc}
use chroutine.Channel.{Caller, Channel, Outcome, write, read, reset}
use chroutine.Net.Socket
use chroutine.Net.Socket.{Socket, Wrote}
use chroutine.Net.Drain.{drain}

-- `client_state_t`
pub data ClientState : Type 0 where
  creating connecting connected disconnected : ClientState

abbrev pub Block : Type 0
Block = List ℕ

-- `socket` is none for the null pointer. What `conn_result_chan` carries is 0 for success, -1 for
-- failure and -2 for the timeout.
pub record Client : Type 0 where
  pub socket : Option Socket
  pub state : ClientState
  pub read_chan : Channel Block
  pub write_chan : Channel Block
  pub conn_result_chan : Channel ℤ

pub is_connected : Client → Bool
is_connected c = elim c.state [
  | creating ↦ false
  | connecting ↦ false
  | connected ↦ true
  | disconnected ↦ false
]

-- What `::connect` returns: a number that is not negative, `EINPROGRESS`, or another failure.
pub data Dialled : Type 0 where
  dialled : ℕ → Dialled
  in_progress : Dialled
  failed : Dialled

-- How the first part of `connect` ends: it returns, or has come to the read of the result, with the
-- timeout's chroutine created; the outcome is the one of that read.
pub data Begun : Type 0 where
  returned : ℤ → Client → Begun
  waits : Outcome ℤ → Client → Begun

-- The end of `connect`, with `ret`.
pub conclude : ℤ → Client → ℤ × Client
conclude (pos zero) c = (pos 0, record c { state = connected })
conclude r c = (r, record c { state = disconnected; socket = none })

abbrev pub new_socket : ℕ → Option ℕ → Socket
new_socket fd chan = record {
  fd = fd;
  is_listener = false;
  pending = [];
  conn_res_chan = chan;
  sent = [];
}

abbrev pub return_with : ℤ × Client → Begun
return_with r = returned r.0 r.1

-- The wait for the result: the channel is reset and read. `chan` is its address, `out_ptr` the one of
-- `conn_result`.
pub await_result : Caller → ℕ → ℕ → ℕ → Client → Begun
await_result self fd chan out_ptr c =
    let o = read self out_ptr false (reset c.conn_result_chan).channel in
    waits o (record c {
      socket = some (new_socket fd (some chan));
      state = connecting;
      conn_result_chan = o.channel;
    })

-- `connect()` up to that read. A descriptor that is not positive is 0.
pub connect : Caller → ℕ → Dialled → ℕ → ℕ → Client → Begun
connect self fd answer chan out_ptr c =
    let made = record c { socket = some (new_socket fd none) } in
    if fd == 0 then returned (negsuc 0) made else elim answer [
      | dialled n ↦ return_with (conclude (pos n) made)
      | in_progress ↦ await_result self fd chan out_ptr c
      | failed ↦ return_with (conclude (negsuc 0) made)
    ]

-- `connect()` from there on: `ret` is still -1 if the result is not 0, else `getsockopt` sets it to
-- the pending error of the socket, or fails.
pub resume_connect : ℤ → Option ℕ → Client → ℤ × Client
resume_connect (pos zero) none c = conclude (negsuc 0) c
resume_connect (pos zero) (some error) c = conclude (pos error) c
resume_connect r answer c = conclude (negsuc 0) c

-- The chroutine that `connect` creates, behind its sleep of 15 seconds.
pub time_out : Caller → Client → Outcome ℤ
time_out timer c = write timer (negsuc 1) false c.conn_result_chan

-- What `on_write` of the socket does for the connection: `*m_conn_res_chan << 0`.
pub report_success : Caller → Client → Outcome ℤ
report_success self c = write self (pos 0) false c.conn_result_chan

-- `on_new_data(which, data, count)`, `read(output)` and `write(data, len)`; no bytes are a null
-- pointer or the count 0.
pub on_new_data : Caller → List ℕ → Client → Option (Outcome Block)
on_new_data self data_ c = if is_nil data_ then none else some (write self data_ false c.read_chan)

pub read_block : Caller → ℕ → Client → Outcome Block
read_block self out_ptr c = read self out_ptr false c.read_chan

pub write_block : Caller → List ℕ → Client → Option (Outcome Block)
write_block self data_ c = if is_nil data_ then none else some (write self data_ false c.write_chan)

-- The body of the loop of `select`. What `::write` returns is a function of the socket's state.
pub send_block : (Socket → List Wrote) → Block → Client → Client
send_block wrotes data_ c = elim c.socket [
  | none ↦ c
  | some s ↦ record c { socket = some (Socket.write (wrotes s) data_ s).2 }
]

-- `select(wait_ms)`: the load, the channel and the client behind the loop.
pub select : Caller → (Socket → List Wrote) → ℕ → Client → Option (ℕ × Channel Block × Client)
select self wrotes fuel c = drain self (send_block wrotes) is_connected fuel c.write_chan c

-- `on_closed(which)`
pub on_closed : Client → Client
on_closed c = elim c.socket [ none ↦ c | some s ↦ record c { state = disconnected; socket = none } ]
