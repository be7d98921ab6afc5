-- ===== src/Net/Socket.antt =====
-- net/epoll/socket.hpp and .cpp: `socket_t`, with the bytes that it still has to write. The calls of
-- the system and of the poller are not under the model: what `::write` and `::read` return is given,
-- and `mod_fd` is an effect.
pub mod Send
pub mod Resend
pub mod Reading
pub mod Setup
mod Tests
use chroutine.Prelude.{
  ℕ, suc, ◌+◌, ◌-◌, Bool, true, false, Option, none, some, List, [], ◌∷◌, ◌++◌, length, take, drop,
  is_nil, if◌then◌else◌,
}

-- One return of `::write`: some bytes taken, one more than the number, at most all that were given;
-- or `EINTR`, or any other failure.
pub data Wrote : Type 0 where
  taken : ℕ → Wrote
  interrupted : Wrote
  refused : Wrote

-- One return of `::read`: some bytes, the end of the stream, or -1.
pub data Got : Type 0 where
  bytes : List ℕ → Got
  ended : Got
  failed : Got

-- What a member function does outside the socket: `mod_fd` with or without `EPOLLOUT`, a 0 written
-- to the channel of the connection's result, and the calls of the sink.
pub data Effect : Type 0 where
  mod_fd : Bool → Effect
  conn_result : ℕ → Effect
  new_connection : Effect
  new_data : List ℕ → Effect
  closed : Effect
  close_fd : ℕ → Effect

-- `socket_t`. The pending blocks are the bytes of each; `sent` has what `::write` took, in order.
pub record Socket : Type 0 where
  pub fd : ℕ
  pub is_listener : Bool
  pub pending : List (List ℕ)
  pub conn_res_chan : Option ℕ
  pub sent : List ℕ

-- The loop round `::write`: the bytes taken, those left, and the returns not used. Where no return
-- is given any more, it is a failure.
pub record Progress : Type 0 where
  pub took : List ℕ
  pub left : List ℕ
  pub returns : List Wrote

pub send_loop : List Wrote → List ℕ → Progress
send_loop ws [] = record { took = []; left = []; returns = ws }
send_loop [] (b ∷ bs) = record { took = []; left = b ∷ bs; returns = [] }
send_loop (taken n ∷ ws) (b ∷ bs) =
    let later = send_loop ws (drop n bs) in record later { took = b ∷ (take n bs ++ later.took) }
send_loop (interrupted ∷ ws) (b ∷ bs) = send_loop ws (b ∷ bs)
send_loop (refused ∷ ws) (b ∷ bs) = record { took = []; left = b ∷ bs; returns = ws }

-- `write(buf, length)` with nothing pending, and with a block pending before it.
send_now : List Wrote → List ℕ → Socket → ℕ × List Effect × Socket
unfolding send_loop
send_now ws buf s =
    let p = send_loop ws buf in
    (
      length p.took,
      if is_nil p.left then [] else mod_fd true ∷ [],
      record s { sent = s.sent ++ p.took; pending = if is_nil p.left then [] else p.left ∷ [] },
    )

queue_up : List ℕ → Socket → ℕ × List Effect × Socket
queue_up buf s = (0, [], record s { pending = s.pending ++ buf ∷ [] })

-- A null pointer or the length 0 is the empty list. The result, the effects, and the socket.
pub write : List Wrote → List ℕ → Socket → ℕ × List Effect × Socket
unfolding send_now queue_up
write ws [] s = (0, [], s)
write ws (b ∷ bs) s = if is_nil s.pending then send_now ws (b ∷ bs) s else queue_up (b ∷ bs) s

abbrev pub pop_front : List (List ℕ) → List (List ℕ)
pop_front [] = []
pop_front (x ∷ xs) = xs

-- The loop of `on_write` over the pending blocks: the bytes taken, the blocks then pending, and
-- whether it aborted. An unfinished block is pushed to the front, and the front is popped.
pub record Flushed : Type 0 where
  pub took : List ℕ
  pub pending : List (List ℕ)
  pub aborted : Bool

pub flush : List Wrote → List (List ℕ) → Flushed
unfolding send_loop
flush ws [] = record { took = []; pending = []; aborted = false }
flush ws (data_ ∷ rest) =
    let p = send_loop ws data_ in
    let later = flush p.returns rest in
    if is_nil p.left
    then record later { took = p.took ++ later.took }
    else record { took = p.took; pending = pop_front (p.left ∷ data_ ∷ rest); aborted = true }

abbrev report : Option ℕ → List Effect
report none = []
report (some chan) = conn_result chan ∷ []

-- `on_write()`: the total written.
pub on_write : List Wrote → Socket → ℕ × List Effect × Socket
unfolding flush
on_write ws s =
    let f = flush ws s.pending in
    (
      length f.took,
      mod_fd false ∷ (report s.conn_res_chan ++ (if f.aborted then mod_fd true ∷ [] else [])),
      record s { conn_res_chan = none; sent = s.sent ++ f.took; pending = f.pending },
    )

-- `on_read()`: a count, 0 for the end, or -1.
pub data Count : Type 0 where
  count : ℕ → Count
  minus_one : Count

-- The buffer has 1024 bytes.
pub on_read : Got → Socket → Count × List Effect
on_read got s = if s.is_listener then (minus_one, new_connection ∷ []) else elim got [
  | bytes bs ↦
      (count (length (take 1024 bs)), if is_nil bs then [] else new_data (take 1024 bs) ∷ [])
  | ended ↦ (count 0, [])
  | failed ↦ (minus_one, [])
]

-- `on_close()`, whose sink may destroy the socket before `::close`.
pub on_close : Socket → List Effect
on_close s = closed ∷ close_fd s.fd ∷ []
