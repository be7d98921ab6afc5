-- ===== src/Net/Epoll.antt =====
-- net/epoll/epoll.hpp and .cpp: `epoll_t`, the table of handlers and the events that they get. The
-- handlers are the sockets of net/epoll/socket.cpp, each with a sink that may own it, as those of
-- net/epoll/raw_tcp_server.cpp and raw_tcp_client.cpp do; what the system calls return is given.
pub mod Closing
pub mod Events
pub mod Live
pub mod Accepts
pub mod Writes
pub mod Turns
mod Tests
use chroutine.Prelude.{
  ℕ, zero, suc, Bool, true, false, Option, none, some, List, [], ◌∷◌, ◌++◌, take, is_nil, ◌==◌,
  if◌then◌else◌,
}
use chroutine.Prelude.Ids.{contains, delete}
use chroutine.Net.Socket.{
  Socket, Wrote, Got, Effect, new_data, Count, count, minus_one, on_read, on_write, flush,
}

-- A descriptor that is not positive is 0. `sockets` has the objects by their addresses; `owned` are
-- the addresses whose objects belong to a sink, `destroyed` those whose destructor has run.
-- `inbox` has the blocks that the sinks have written to their channels, with the sockets they came
-- from; `closes` has the arguments of `::close`, and `faults` the destroyed objects that were used.
-- `wild` tells that a member function of a destroyed object was called or went on: what the code does from
-- there on is not defined, and the model stops. Where a result is an option, `none` is no return.
pub record World : Type 0 where
  pub fd_map : List (ℕ × ℕ)
  pub sockets : ℕ → Socket
  pub owned : List ℕ
  pub destroyed : List ℕ
  pub inbox : List (ℕ × List ℕ)
  pub closes : List ℕ
  pub faults : List ℕ
  pub wild : Bool

abbrev pub put_socket : ℕ → Socket → World → World
put_socket h s w = record w { sockets = λ a. if a == h then s else w.sockets a }

-- `get_handler(fd)`, and the changes of `m_fd_map`; `insert` does nothing for a key that is there.
pub get_handler : ℕ → List (ℕ × ℕ) → Option ℕ
get_handler fd [] = none
get_handler fd ((k, h) ∷ m) = if k == fd then some h else get_handler fd m

pub erase_fd : ℕ → List (ℕ × ℕ) → List (ℕ × ℕ)
erase_fd fd [] = []
erase_fd fd ((k, h) ∷ m) = let later = erase_fd fd m in if k == fd then later else (k, h) ∷ later

-- `del_fd(handler)`; the handler 0 is the null pointer.
pub del_fd : ℕ → World → World
del_fd h w =
    if h == 0
    then w
    else if (w.sockets h).fd == 0
    then w
    else record w { fd_map = erase_fd (w.sockets h).fd w.fd_map }

-- `return ::close(m_fd)`, the end of `on_close` in the socket at `h`.
pub shut : ℕ → World → World
shut h w = record w {
  closes = w.closes ++ (w.sockets h).fd ∷ [];
  faults = if contains h w.destroyed then w.faults ++ h ∷ [] else w.faults;
}

-- The sink forgets the socket at `h`, whose destructor then runs: `m_connections.erase(iter)`, or
-- `m_socket.reset()`, take the pointer out before they destroy the object.
abbrev pub disown : ℕ → World → World
disown h w = record w { owned = delete h w.owned }

abbrev pub mark_destroyed : ℕ → World → World
mark_destroyed h w = record w { destroyed = h ∷ w.destroyed }

-- `on_close` of the socket at `h`, with the sink's `on_closed`, which destroys a socket that it owns:
-- `inner` is what the destructor's own call of `close_fd` comes to.
pub end_close : Option World → ℕ → World → Option World
end_close inner h w =
    if contains h w.owned
    then elim inner [ none ↦ none | some v ↦ some (shut h (mark_destroyed h v)) ]
    else some (shut h w)

-- `close_fd(handler)`. `none` is out of fuel, and 2 is enough.
pub close_handler : ℕ → ℕ → World → Option World
close_handler zero h w = none
close_handler (suc fuel) h w =
    let w1 = del_fd h w in end_close (close_handler fuel h (disown h w1)) h w1

-- `close_fd(handler)` for any handler.
pub close_fd : ℕ → World → Option World
close_fd h w = if h == 0 then some w else close_handler 2 h w

-- `add_fd(handler, flag)`, where `ok` tells if `epoll_ctl` succeeds: a handler that has the descriptor
-- is taken out, and the new one is entered.
pub clear_old : Option ℕ → World → World
clear_old none w = w
clear_old (some old) w = del_fd old w

pub enter : ℕ → ℕ → World → World
enter fd h w = record w { fd_map = (fd, h) ∷ w.fd_map }

pub add_fd : ℕ → Bool → World → Option World
add_fd h ok w =
    let fd = (w.sockets h).fd in
    let added = enter fd h (clear_old (get_handler fd w.fd_map) w) in
    if h == 0
    then some w
    else if fd == 0
    then some w
    else if ok
    then some added
    else close_fd h added

-- `close_fd(fd)`, and `mod_fd(fd, flag)`, where `ok` tells if `epoll_ctl` succeeds: the Boolean is false
-- for the result -1.
pub close_by_fd : ℕ → World → Option World
close_by_fd fd w = elim (get_handler fd w.fd_map) [ none ↦ some w | some h ↦ close_fd h w ]

pub refused_mod : Option World → Option (Bool × World)
refused_mod none = none
refused_mod (some w) = some (false, w)

pub mod_found : Option ℕ → Bool → World → Option (Bool × World)
mod_found none ok w = some (false, w)
mod_found (some h) ok w =
    let closed = refused_mod (close_fd h w) in if ok then some (true, w) else closed

pub mod_fd : ℕ → Bool → World → Option (Bool × World)
mod_fd fd ok w = mod_found (get_handler fd w.fd_map) ok w

-- `on_new_data(which, data, count)` of a sink: data for a socket that it does not own is dropped. The rest
-- is written to the sink's channel, outside of any chroutine: there `HOLD` returns at once, so the write
-- returns on a full channel too, with the block in the queue of the writers that wait. `stuck` tells that
-- the channel is locked for ever, as by a reader that has found a writer; then the write does not return.
pub deliver : Bool → ℕ → List Effect → World → Option World
deliver stuck h [] w = some w
deliver stuck h (new_data bs ∷ es) w =
    let written = deliver stuck h es (record w { inbox = w.inbox ++ (h, bs) ∷ [] }) in
    let dropped = deliver stuck h es w in
    if contains h w.owned then (if stuck then none else written) else dropped
deliver stuck h (e ∷ es) w = deliver stuck h es w

-- One turn of the loop round `on_read`, with its count; `later` is the rest of the loop.
pub after_count : Count → ℕ → World → Option World → Option World
after_count minus_one h w later = some w
after_count (count k) h w later = if k == 0 then close_fd h w else later

-- The loop; where no return of `::read` is given any more, it is `EAGAIN`.
pub read_loop : Bool → ℕ → List Got → World → Option World
read_loop stuck h [] w = some w
read_loop stuck h (got ∷ gots) w =
    let (n, es) = on_read got (w.sockets h) in
    elim (deliver stuck h es w) [
      | none ↦ none
      | some w' ↦ after_count n h w' (read_loop stuck h gots w')
    ]

-- `on_new_connection()` of the sink in net/epoll/raw_tcp_server.cpp: for each descriptor of `accept` a socket at a new address, which its
-- constructor adds to the poller; then it enters the table of connections. A descriptor that is not
-- positive is 0 and ends the loop.
pub new_socket : ℕ → Socket
new_socket fd = record {
  fd = fd;
  is_listener = false;
  pending = [];
  conn_res_chan = none;
  sent = [];
}

pub accept_one : ℕ → ℕ → Bool → World → Option World
accept_one fd address ok w = elim (add_fd address ok (put_socket address (new_socket fd) w)) [
  | none ↦ none
  | some w' ↦ some (record w' { owned = w'.owned ++ address ∷ [] })
]

pub on_new_connection : List (ℕ × ℕ × Bool) → World → Option World
on_new_connection [] w = some w
on_new_connection ((fd, address, ok) ∷ more) w =
    if fd == 0
    then some w
    else elim (accept_one fd address ok w) [ none ↦ none | some w' ↦ on_new_connection more w' ]

-- A member function of the socket at `h` goes on; its object may have been destroyed meanwhile.
pub continue_in : ℕ → (World → Option World) → World → Option World
continue_in h body w =
    let went = body w in
    if contains h w.destroyed
    then some (record w { faults = w.faults ++ h ∷ []; wild = true })
    else went

-- `m_poller->mod_fd(m_fd, flag)` in a member function of the socket at `h`, which then goes on.
pub behind_mod : ℕ → (World → Option World) → Option (Bool × World) → Option World
behind_mod h body none = none
behind_mod h body (some (ok, w)) = continue_in h body w

pub mod_own : ℕ → Bool → (World → Option World) → World → Option World
mod_own h ok body w = behind_mod h body (mod_fd (w.sockets h).fd ok w)

-- `on_write()` between the two calls of `mod_fd`, and the second, if some bytes are left.
pub flush_out : ℕ → List Wrote → Bool → World → Option World
flush_out h ws ok w =
    let s = w.sockets h in
    let written = put_socket h (on_write ws s).2 w in
    let watched = mod_own h ok (λ v. some v) written in
    if (flush ws s.pending).aborted then watched else some written

-- `handler->on_write()`; the pointer may be to a destroyed object.
pub write_out : ℕ → List Wrote → Bool × Bool → World → Option World
write_out h ws (first, second) w = continue_in h (mod_own h first (flush_out h ws second)) w

-- One event of `epoll_wait`, with what `::read`, `::write` and `accept` return while it is handled;
-- `mods` tells if `epoll_ctl` succeeds for the first and the second `mod_fd` of `on_write`, and `stuck` if
-- the channel that its sink writes to is locked for ever.
pub record Event : Type 0 where
  pub fd : ℕ
  pub error : Bool
  pub readable : Bool
  pub writable : Bool
  pub gots : List Got
  pub wrotes : List Wrote
  pub accepts : List (ℕ × ℕ × Bool)
  pub mods : Bool × Bool
  pub stuck : Bool

-- The loop round `on_read` for a handler: that of a listener has its sink take the connections and
-- returns -1, which ends the loop.
pub read_in : ℕ → Event → World → Option World
read_in h e w =
    let taken = on_new_connection e.accepts w in
    let read = read_loop e.stuck h e.gots w in if (w.sockets h).is_listener then taken else read

-- What is done for a handler that was found: `EPOLLIN`, then `EPOLLOUT`.
pub then_write : ℕ → Event → Option World → Option World
then_write h e none = none
then_write h e (some w) =
    let written = write_out h e.wrotes e.mods w in if e.writable then written else some w

pub serve : ℕ → Event → World → Option World
serve h e w = then_write h e (if e.readable then read_in h e w else some w)

pub handle : Event → World → Option World
handle e w = elim (get_handler e.fd w.fd_map) [
  | none ↦ some w
  | some h ↦ if e.error then close_fd h w else serve h e w
]

-- `select`, which gets at most 8 events at once; none also stand for an `epoll_wait` that fails. The count
-- of the events, which it returns, is left out.
pub handle_all : List Event → World → Option World
handle_all [] w = some w
handle_all (e ∷ es) w = elim (handle e w) [
  | none ↦ none
  | some w' ↦ if w'.wild then some w' else handle_all es w'
]

pub select : List Event → World → Option World
select events w = handle_all (take 8 events) w
