-- ===== src/Net/Server/Echo.antt =====
-- The way of the blocks through net/epoll/raw_tcp_server.cpp, with the chroutine of
-- examples/tcp_echo_server_example: from the connections, through the two channels, back to them.
pub mod Turns
pub mod Whole
use chroutine.Prelude.{
  ℕ, zero, suc, ◌+◌, ◌≤◌, ◌<◌, ◌≡◌, refl, sym, ap, ◌∙◌, subst, inl, inr, Bool, true, false, Option,
  none, some, List, [], ◌∷◌, ◌++◌, length, is_nil, ◌==◌, ==_iff, if◌then◌else◌, arith, Bool-cases,
  length-append, append_assoc, append-nil,
}
use chroutine.Prelude.Ids.{contains}
use chroutine.Channel.{
  Caller, Channel, Outcome, Effect, store, Reply, returns, holds, spins, done, write, read,
}
use chroutine.Channel.Ring.{contents-none}
use chroutine.Channel.Idle.{
  items, IsIdle, length-items, added, one_less, write-room, items-added, added-IsIdle, read-some,
  items-one_less, one_less-IsIdle,
}
use chroutine.Net.Socket.{Socket, Wrote}
use chroutine.Net.Epoll.{World}
use chroutine.Net.Drain.{Taken, got, nothing, stuck, taken, first_store}
use chroutine.Net.Server.{Packet, Server, on_new_data, read_packet, write_packet, select}
use chroutine.Net.Server.Traffic.{bytes_of, to_socket, select_lem}

-- The blocks that the sockets bring, one `on_new_data` for each.
abbrev pub put_read : Server → Option (Outcome Packet) → Server
put_read s none = s
put_read s (some o) = record s { read_chan = o.channel }

pub receive_all : Caller → List Packet → World → Server → Server
receive_all self [] w s = s
receive_all self ((which, data_) ∷ ps) w s =
    receive_all self ps w (put_read s (on_new_data self which data_ w s))

-- One turn of the chroutine's loop: the block that is read goes to `write`. `none` is a turn that waits.
abbrev pub put_write : Server → Option (Outcome Packet) → Option Server
put_write s none = some s
put_write s (some o) = elim o.reply [
  | returns b ↦ some (record s { write_chan = o.channel })
  | holds ↦ none
  | spins ↦ none
]

abbrev pub send_back : Caller → Server → Taken Packet → Option Server
send_back self s nothing = none
send_back self s stuck = none
send_back self s (got (which, data_)) = put_write s (write_packet self which data_ s)

pub echo_turn : Caller → Server → Option Server
echo_turn self s =
    let o = read_packet self 0 s in send_back self (record s { read_chan = o.channel }) (taken o)

pub echo_turns : Caller → ℕ → Server → Option Server
echo_turns self zero s = some s
echo_turns self (suc n) s = elim (echo_turn self s) [ none ↦ none | some s' ↦ echo_turns self n s' ]

-- Nobody waits at the two channels.
pub record IsIdleServer (s : Server) : Type 0 where
  pub reads : IsIdle s.read_chan
  pub writes : IsIdle s.write_chan

-- Blocks of connections that are there, each with some bytes.
abbrev pub AllHeld : List Packet → World → Type 0
AllHeld [] w = Unit
AllHeld ((which, data_) ∷ ps) w =
    (contains which w.owned ≡ true) × ((which == 0) ≡ false) × (is_nil data_ ≡ false) × AllHeld ps w
