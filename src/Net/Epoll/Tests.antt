-- ===== src/Net/Epoll/Tests.antt =====
-- The table of handlers at concrete inputs, and the theorems applied there.
use chroutine.Prelude.{
  ℕ, List, Option, ◌==◌, if◌then◌else◌, ◌≡◌, refl, true, false, none, some, [], ◌∷◌, map, arith,
}
use chroutine.Net.Socket.{bytes, ended}
use chroutine.Net.Epoll.{
  World, erase_fd, get_handler, del_fd, clear_old, enter, add_fd, close_handler, read_loop, serve,
  write_out, Event, select, handle_all, handle, read_in, on_new_connection, accept_one, then_write,
  new_socket,
}
use chroutine.Net.Epoll.Closing.{close_handler-twice}
use chroutine.Net.Epoll.Live.{IsLive, Lives}
use chroutine.Net.Epoll.Accepts.{IsFresh}
use chroutine.Net.Epoll.Turns.{select-Lives}
use chroutine.Net.Epoll.Events.{read_loop-delivers, serve-hang_up, write_out-refused}

-- One connection, at the address 70, on the descriptor 7.
abbrev world : World
world = record {
  fd_map = (7, 70) ∷ [];
  sockets =
      λ h. record { fd = 7; is_listener = false; pending = []; conn_res_chan = none; sent = [] };
  owned = 70 ∷ [];
  destroyed = [];
  inbox = [];
  closes = [];
  faults = [];
  wild = false;
}

abbrev hang_up : Event
hang_up = record {
  fd = 7;
  error = false;
  readable = true;
  writable = true;
  gots = ended ∷ [];
  wrotes = [];
  accepts = [];
  mods = (true, true);
  stuck = false;
}

replaced : add_fd 71 true world ≡ some (record world { fd_map = (7, 71) ∷ [] })
unfolding add_fd clear_old enter get_handler del_fd erase_fd
replaced = refl

close_handler-twice_example :
    (w' : World) × (close_handler 2 70 world ≡ some w')
    × (w'.fd_map ≡ erase_fd 7 world.fd_map)
    × (w'.owned ≡ [])
    × (w'.destroyed ≡ 70 ∷ [])
    × (w'.closes ≡ 7 ∷ 7 ∷ [])
    × (w'.faults ≡ 70 ∷ [])
close_handler-twice_example =
    close_handler-twice 0 70 world (omega arith) (omega arith) (refl, tt) refl refl

read_loop-delivers_example :
    read_loop false 70 (map bytes ((1 ∷ 2 ∷ []) ∷ (3 ∷ []) ∷ [])) world
    ≡ some (record world { inbox = (70, 1 ∷ 2 ∷ []) ∷ (70, 3 ∷ []) ∷ [] })
read_loop-delivers_example =
    read_loop-delivers 70 ((1 ∷ 2 ∷ []) ∷ (3 ∷ []) ∷ []) world refl refl refl

serve-hang_up_example :
    (w' : World) × (serve 70 hang_up world ≡ some w')
    × (w'.closes ≡ 7 ∷ 7 ∷ [])
    × (w'.faults ≡ 70 ∷ 70 ∷ [])
    × (w'.wild ≡ true)
serve-hang_up_example =
    serve-hang_up 70 hang_up [] world (omega arith) (omega arith) refl (refl, tt) refl refl refl
      refl refl

write_out-refused_example :
    (w' : World) × (write_out 70 [] (false, true) world ≡ some w')
    × (w'.destroyed ≡ 70 ∷ [])
    × (w'.closes ≡ 7 ∷ 7 ∷ [])
    × (w'.faults ≡ 70 ∷ 70 ∷ [])
    × (w'.wild ≡ true)
unfolding get_handler
write_out-refused_example =
    write_out-refused 70 [] true world (omega arith) (omega arith) (refl, tt) refl refl refl

-- A listener at the address 60, on the descriptor 6, that takes one connection as the object 72.
abbrev listening : World
listening = record world {
  fd_map = (6, 60) ∷ world.fd_map;
  sockets = λ h. record (world.sockets h) {
    fd = if h == 60 then 6 else 7;
    is_listener = if h == 60 then true else false;
  };
}

abbrev comes_in : Event
comes_in = record {
  fd = 6;
  error = false;
  readable = true;
  writable = false;
  gots = [];
  wrotes = [];
  accepts = (8, 72, true) ∷ (0, 0, true) ∷ [];
  mods = (true, true);
  stuck = false;
}

-- What the sinks own then.
abbrev owned_by : Option World → List ℕ
owned_by none = []
owned_by (some w) = w.owned

accepted : owned_by (select (comes_in ∷ []) listening) ≡ 70 ∷ 72 ∷ []
unfolding select handle_all handle get_handler serve read_in on_new_connection accept_one add_fd
    then_write new_socket clear_old enter
accepted = refl

listening-IsLive : IsLive listening
unfolding get_handler
listening-IsLive = record { owned_once = (refl, tt); live = λ fd h e. ground (arith, e) }

listening-IsFresh : IsFresh 72 listening
unfolding get_handler
listening-IsFresh = record {
  real = omega arith;
  alive = refl;
  unowned = refl;
  unlisted = λ fd e. ground (arith, e);
}

select-Lives_example : Lives (select (comes_in ∷ []) listening)
select-Lives_example =
    select-Lives (comes_in ∷ []) listening
      (
        (λ some_fd. (listening-IsFresh, λ v e. λ none_left. absurd (none_left refl))),
        refl,
        λ v e. tt,
      )
      listening-IsLive
