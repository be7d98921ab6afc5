-- ===== src/Net/Server/Tests.antt =====
-- A server with two connections, and the theorem applied there.
use chroutine.Prelude.{List, ◌≡◌, refl, false, none, some, [], ◌∷◌, arith, ◌==◌, inr, if◌then◌else◌}
use chroutine.Channel.{Caller, Channel}
use chroutine.Channel.Idle.{IsIdle}
use chroutine.Net.Socket.{taken, refused}
use chroutine.Net.Epoll.{World}
use chroutine.Net.Server.{Packet, Server, serving, select}
use chroutine.Net.Server.Echo.{receive_all, echo_turns}
use chroutine.Net.Server.Echo.Whole.{echo_lem}
use chroutine.Net.Server.Traffic.{bytes_of}

abbrev self : Caller
self = record { thread_id = 1; chroutine_id = 0 }

abbrev world : World
world = record {
  fd_map = (7, 70) ∷ (8, 80) ∷ [];
  sockets = λ h. record {
    fd = if h == 70 then 7 else 8;
    is_listener = false;
    pending = [];
    conn_res_chan = none;
    sent = [];
  };
  owned = 70 ∷ 80 ∷ [];
  destroyed = [];
  inbox = [];
  closes = [];
  faults = [];
  wild = false;
}

-- Three blocks, two of them for the socket 70.
abbrev blocks : Channel Packet
blocks = record {
  w_index = 3;
  r_index = 0;
  max_size = 4;
  data_array = λ i. if i == 1 then (80, 4 ∷ []) else (70, i ∷ 5 ∷ []);
  unread = 3;
  waiting_write_que = [];
  waiting_read_que = [];
  locked = false;
}

abbrev server : Server
server = record { listener = none; state = serving; read_chan = blocks; write_chan = blocks }

-- Nobody waits at the channels, which have nothing.
abbrev nothing_there : Channel Packet
nothing_there = record blocks { w_index = 0; unread = 0 }

abbrev idle : IsIdle nothing_there
idle = record {
  valid = record {
    r_in = omega arith;
    unread_in = omega arith;
    w_at = refl;
    readers_idle = inr refl;
  };
  open_ = refl;
  no_writer = refl;
  no_reader = refl;
}

abbrev idle_server : Server
idle_server = record server { read_chan = nothing_there; write_chan = nothing_there }

abbrev come_in : List Packet
come_in = (70, 1 ∷ 2 ∷ []) ∷ (80, 3 ∷ []) ∷ (70, 4 ∷ []) ∷ []

echo_lem_example :
    (s' : Server) × (c' : Channel Packet) × (w' : World) × (echo_turns self 3
        (receive_all self come_in world idle_server)
      ≡ some s')
    × (select self (λ h s. taken 0 ∷ refused ∷ []) 4 world s' ≡ some (3, c', w'))
    × (bytes_of 70 w' ≡ 1 ∷ 2 ∷ 4 ∷ [])
echo_lem_example =
    echo_lem (λ h s. taken 0 ∷ refused ∷ []) self self self 4 70 come_in world idle_server
      (record { reads = idle; writes = idle }) refl refl (omega arith) (omega arith) (omega arith)
      (refl, refl, refl, (refl, refl, refl, (refl, refl, refl, tt))) refl
