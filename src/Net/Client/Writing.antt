-- ===== src/Net/Client/Writing.antt =====
-- What `select` of net/epoll/raw_tcp_client.cpp does with the blocks in the client's channel.
use chroutine.Prelude.{
  ℕ, ◌<◌, ◌≡◌, refl, sym, ap, ◌∙◌, true, false, some, List, [], ◌∷◌, ◌++◌, concat, append_assoc,
  append-nil, arith,
}
use chroutine.Channel.{Caller, Channel}
use chroutine.Channel.Valid.{IsValid}
use chroutine.Net.Socket
use chroutine.Net.Socket.{Socket, Wrote}
use chroutine.Net.Socket.Send.{write_lem}
use chroutine.Channel.Idle.{items}
use chroutine.Net.Drain.Empties.{fold, drain_lem}
use chroutine.Net.Client.{Client, Block, is_connected, connected, send_block, select}

-- What the socket `s` of a connected client has been given to write, out or pending.
abbrev pub bytes_of : Socket → List ℕ
bytes_of s = s.sent ++ concat s.pending

abbrev pub connected_by : Socket → Client → Client
connected_by s c = record c { socket = some s; state = connected }

module _ (wrotes : Socket → List Wrote) where
  abbrev next : Block → Socket → Socket
  next data_ s = (Socket.write (wrotes s) data_ s).2

  fold-connected_by :
      (ps : List Block) (s : Socket) (c : Client)
      → fold (send_block wrotes) ps (connected_by s c) ≡ connected_by (fold next ps s) c
  unfolding send_block
  fold-connected_by [] s c = refl
  fold-connected_by (p ∷ ps) s c = fold-connected_by ps (next p s) c

  bytes_of-fold :
      (ps : List Block) (s : Socket) → bytes_of (fold next ps s) ≡ bytes_of s ++ concat ps
  bytes_of-fold [] s = sym (append-nil (bytes_of s))
  bytes_of-fold (p ∷ ps) s =
      bytes_of-fold ps (next p s)
      ∙ ap (λ l. l ++ concat ps) (write_lem (wrotes s) p s).0
      ∙ append_assoc (bytes_of s) p (concat ps)

  stays_connected :
      (v : Block) (t : Client) → is_connected t ≡ true → is_connected (send_block wrotes v t) ≡ true
  unfolding send_block is_connected
  stays_connected v t goes = ground arith

  -- For a connected client, with more fuel than blocks in its channel, which is unlocked and has no
  -- writer that waits: `select` returns how many there were, leaves none, and has given their bytes to
  -- the socket in the order of the channel, behind what it had.
  pub select-connected :
      (self : Caller) (fuel : ℕ) (s : Socket) (c : Client)
      → IsValid c.write_chan
      → c.write_chan.locked ≡ false
      → c.write_chan.waiting_write_que ≡ []
      → c.write_chan.unread < fuel
      → (ch : Channel Block) × (s' : Socket) × (select self wrotes fuel (connected_by s c)
          ≡ some (c.write_chan.unread, ch, connected_by s' c))
        × (ch.unread ≡ 0)
        × (bytes_of s' ≡ bytes_of s ++ concat (items c.write_chan))
  unfolding select is_connected
  select-connected self fuel s c v open_ nobody enough =
      let (ch, e, empty, _) =
        drain_lem self (send_block wrotes) is_connected fuel c.write_chan (connected_by s c)
          stays_connected v open_ nobody refl enough in
      (
        ch,
        fold next (items c.write_chan) s,
        e
            ∙ ap (λ d. some (c.write_chan.unread, ch, d))
                (fold-connected_by (items c.write_chan) s c),
        empty,
        bytes_of-fold (items c.write_chan) s,
      )
