-- ===== src/Net/Server/Echo/Whole.antt =====
-- What a connection of net/epoll/raw_tcp_server.cpp sends comes back to it.
use chroutine.Prelude.{ℕ, ◌≤◌, ◌<◌, ◌≡◌, sym, ap, ◌∙◌, true, some, List, ◌++◌, length, arith}
use chroutine.Prelude.Ids.{contains}
use chroutine.Channel.{Caller, Channel}
use chroutine.Channel.Ring.{contents-none}
use chroutine.Channel.Idle.{items, length-items}
use chroutine.Net.Socket.{Socket, Wrote}
use chroutine.Net.Epoll.{World}
use chroutine.Net.Server.{Packet, Server, select}
use chroutine.Net.Server.Traffic.{bytes_of, to_socket, select_lem}
use chroutine.Net.Server.Echo.{receive_all, echo_turns, IsIdleServer, AllHeld}
use chroutine.Net.Server.Echo.Turns.{receive_all_lem, echo_turns_lem}

-- Where nobody waits at the two channels and they are empty: blocks of connections that are there, with
-- some bytes each, and no more of them than each channel holds, go into the one channel; as many turns
-- of the echo chroutine all come to an end; then `select`, with more fuel than blocks, returns how many
-- there were, and each connection has been given just the bytes of its own blocks, in their order.
pub echo_lem :
    (wrotes : ℕ → Socket → List Wrote) (poller self thread : Caller) (fuel h : ℕ) (ps : List Packet)
    (w : World) (s : Server)
    → IsIdleServer s
    → s.read_chan.unread ≡ 0
    → s.write_chan.unread ≡ 0
    → length ps ≤ s.read_chan.max_size
    → length ps ≤ s.write_chan.max_size
    → length ps < fuel
    → AllHeld ps w
    → contains h w.owned ≡ true
    → (s' : Server) × (c' : Channel Packet) × (w' : World) × (echo_turns self
          (length ps)
          (receive_all poller ps w s)
        ≡ some s')
      × (select thread wrotes fuel w s' ≡ some (length ps, c', w'))
      × (bytes_of h w' ≡ bytes_of h w ++ to_socket h ps)
echo_lem wrotes poller self thread fuel h ps w s idle no_read no_write room_read room_write enough
      held there =
    let empty_read =
      contents-none s.read_chan.data_array s.read_chan.max_size s.read_chan.r_index
        s.read_chan.unread no_read in
    let empty_write =
      contents-none s.write_chan.data_array s.write_chan.max_size s.write_chan.r_index
        s.write_chan.unread no_write in
    let (idle1, in_read, same) =
      receive_all_lem poller ps w s idle (omega (arith, no_read, room_read)) held in
    let s1 = receive_all poller ps w s in
    let (s', done_, idle2, in_write) =
      echo_turns_lem self ps w s1 idle1 (in_read ∙ ap (λ l. l ++ ps) empty_read)
        (omega (
          arith,
          ap (λ (c : Channel Packet). c.unread) same,
          ap (λ (c : Channel Packet). c.max_size) same,
          no_write,
          room_write,
        ))
        held in
    let to_write : items s'.write_chan ≡ ps =
      in_write ∙ ap (λ (c : Channel Packet). items c ++ ps) same ∙ ap (λ l. l ++ ps) empty_write in
    let count : s'.write_chan.unread ≡ length ps =
      sym (length-items s'.write_chan) ∙ ap length to_write in
    let (c', w', selected, none_left, given) =
      select_lem wrotes thread fuel h w s' idle2.writes.valid idle2.writes.open_
        idle2.writes.no_writer (omega (arith, count, enough)) there in
    (
      s',
      c',
      w',
      done_,
      selected ∙ ap (λ n. some (n, c', w')) count,
      given ∙ ap (λ l. bytes_of h w ++ to_socket h l) to_write,
    )
