-- ===== src/Net/Server/Traffic.antt =====
-- What the blocks in the server's channels come to: `select` of net/epoll/raw_tcp_server.cpp hands each
-- to its connection.
use chroutine.Prelude.{
  ℕ, ◌<◌, ◌≡◌, refl, sym, ap, ◌∙◌, inl, inr, Bool, true, false, some, List, [], ◌∷◌, ◌++◌, concat,
  append_assoc, append-nil, ◌==◌, ==_iff, if◌then◌else◌, arith, Bool-cases, subst,
}
use chroutine.Prelude.Ids.{contains}
use chroutine.Channel.{Caller, Channel}
use chroutine.Channel.Valid.{IsValid}
use chroutine.Net.Socket
use chroutine.Net.Socket.{Socket, Wrote}
use chroutine.Net.Socket.Send.{write_lem}
use chroutine.Net.Epoll.{World, put_socket}
use chroutine.Channel.Idle.{items}
use chroutine.Net.Drain.Empties.{fold, drain_lem}
use chroutine.Net.Server.{Packet, Server, send_packet, select}

-- What the socket at `h` has been given to write, out or pending.
abbrev pub bytes_of : ℕ → World → List ℕ
bytes_of h w = (w.sockets h).sent ++ concat (w.sockets h).pending

abbrev pub to_socket : ℕ → List Packet → List ℕ
to_socket h [] = []
to_socket h ((k, data_) ∷ ps) = (if k == h then data_ else []) ++ to_socket h ps

module _ (wrotes : ℕ → Socket → List Wrote) where
  owned-send_packet : (p : Packet) (w : World) → (send_packet wrotes p w).owned ≡ w.owned
  unfolding send_packet
  owned-send_packet (k, data_) w = ground arith

  bytes_of-put :
      (h k : ℕ) (sock : Socket) (w : World) {b : Bool}
      → (h == k) ≡ b
      → bytes_of h (put_socket k sock w)
        ≡ (if b then sock.sent ++ concat sock.pending else bytes_of h w)
  bytes_of-put h k sock w {b = true} e =
      ap
        (λ b.
          (if b then sock else w.sockets h).sent
          ++ concat (if b then sock else w.sockets h).pending)
        e
  bytes_of-put h k sock w {b = false} e =
      ap
        (λ b.
          (if b then sock else w.sockets h).sent
          ++ concat (if b then sock else w.sockets h).pending)
        e

  send_packet-owned :
      (k : ℕ) (data_ : List ℕ) (w : World)
      → contains k w.owned ≡ true
      → send_packet wrotes (k, data_) w
        ≡ put_socket k (Socket.write (wrotes k (w.sockets k)) data_ (w.sockets k)).2 w
  unfolding send_packet
  send_packet-owned k data_ w held = simp held refl

  bytes_of-own :
      (h : ℕ) (data_ : List ℕ) (w : World)
      → contains h w.owned ≡ true
      → bytes_of h (send_packet wrotes (h, data_) w) ≡ bytes_of h w ++ data_
  bytes_of-own h data_ w held =
      ap (bytes_of h) (send_packet-owned h data_ w held)
      ∙ bytes_of-put h h (Socket.write (wrotes h (w.sockets h)) data_ (w.sockets h)).2 w
          ((==_iff h h).1 refl)
      ∙ (write_lem (wrotes h (w.sockets h)) data_ (w.sockets h)).0

  bytes_of-other :
      (h k : ℕ) (data_ : List ℕ) (w : World)
      → (h == k) ≡ false
      → bytes_of h (send_packet wrotes (k, data_) w) ≡ bytes_of h w
  unfolding send_packet
  bytes_of-other h k data_ w differs = elim (Bool-cases (contains k w.owned)) [
    | inl held ↦
        ap (bytes_of h) (send_packet-owned k data_ w held)
        ∙ bytes_of-put h k (Socket.write (wrotes k (w.sockets k)) data_ (w.sockets k)).2 w differs
    | inr gone ↦ simp gone refl
  ]

  bytes_of-send_packet :
      (h k : ℕ) (data_ : List ℕ) (w : World)
      → contains h w.owned ≡ true
      → bytes_of h (send_packet wrotes (k, data_) w)
        ≡ bytes_of h w ++ (if k == h then data_ else [])
  bytes_of-send_packet h k data_ w held = elim (Bool-cases (k == h)) [
    | inl same ↦ rw same (
        subst (λ i. bytes_of h (send_packet wrotes (i, data_) w) ≡ bytes_of h w ++ data_)
          (sym ((==_iff k h).0 same)) (bytes_of-own h data_ w held))
    | inr differs ↦
        rw differs
          (bytes_of-other h k data_ w (ground (arith, differs)) ∙ sym (append-nil (bytes_of h w)))
  ]

  bytes_of-fold :
      (h : ℕ) (ps : List Packet) (w : World)
      → contains h w.owned ≡ true
      → bytes_of h (fold (send_packet wrotes) ps w) ≡ bytes_of h w ++ to_socket h ps
  bytes_of-fold h [] w held = sym (append-nil (bytes_of h w))
  bytes_of-fold h ((k, data_) ∷ ps) w held =
      bytes_of-fold h ps (send_packet wrotes (k, data_) w)
        (ap (contains h) (owned-send_packet (k, data_) w) ∙ held)
      ∙ ap (λ l. l ++ to_socket h ps) (bytes_of-send_packet h k data_ w held)
      ∙ append_assoc (bytes_of h w) (if k == h then data_ else []) (to_socket h ps)

  -- With more fuel than blocks in the channel, which is unlocked and has no writer that waits: `select`
  -- returns how many there were and leaves none, and each connection has been given just the bytes of
  -- its own blocks, behind what it had, in the order of the channel.
  pub select_lem :
      (self : Caller) (fuel h : ℕ) (w : World) (s : Server)
      → IsValid s.write_chan
      → s.write_chan.locked ≡ false
      → s.write_chan.waiting_write_que ≡ []
      → s.write_chan.unread < fuel
      → contains h w.owned ≡ true
      → (c' : Channel Packet) × (w' : World) × (select self wrotes fuel w s
          ≡ some (s.write_chan.unread, c', w'))
        × (c'.unread ≡ 0)
        × (bytes_of h w' ≡ bytes_of h w ++ to_socket h (items s.write_chan))
  unfolding select
  select_lem self fuel h w s v open_ nobody enough held =
      let (c', e, empty, _) =
        drain_lem self (send_packet wrotes) (λ t. true) fuel s.write_chan w (λ p t g. refl) v open_
          nobody refl enough in
      (
        c',
        fold (send_packet wrotes) (items s.write_chan) w,
        e,
        empty,
        bytes_of-fold h (items s.write_chan) w held,
      )
