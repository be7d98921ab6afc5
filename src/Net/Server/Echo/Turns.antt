-- ===== src/Net/Server/Echo/Turns.antt =====
-- What one turn of the echo chroutine, and one block that comes in, do to the channels of
-- net/epoll/raw_tcp_server.cpp.
use chroutine.Prelude.{
  ℕ, ◌+◌, ◌≤◌, ◌<◌, ◌≡◌, refl, sym, ap, ◌∙◌, subst, true, false, Option, none, some, List, [], ◌∷◌,
  ◌++◌, length, is_nil, ◌==◌, if◌then◌else◌, arith, append_assoc, append-nil,
}
use chroutine.Prelude.Ids.{contains}
use chroutine.Channel.{Caller, Channel, Outcome, write}
use chroutine.Channel.Idle.{
  items, IsIdle, length-items, added, one_less, write-room, items-added, added-IsIdle, read-some,
  items-one_less, one_less-IsIdle,
}
use chroutine.Net.Epoll.{World}
use chroutine.Net.Drain.{got, taken, first_store}
use chroutine.Net.Server.{Packet, Server, on_new_data, read_packet, write_packet}
use chroutine.Net.Server.Echo.{
  put_read, receive_all, put_write, send_back, echo_turn, echo_turns, IsIdleServer, AllHeld,
}

receive-some :
    (self : Caller) (which : ℕ) (data_ : List ℕ) (w : World) (s : Server)
    → IsIdle s.read_chan
    → s.read_chan.unread < s.read_chan.max_size
    → contains which w.owned ≡ true
    → is_nil data_ ≡ false
    → put_read s (on_new_data self which data_ w s)
      ≡ record s { read_chan = added (which, data_) s.read_chan }
unfolding on_new_data
receive-some self which data_ w s idle room held some_bytes =
    simp (held, some_bytes)
      (ap (λ (o : Outcome Packet). record s { read_chan = o.channel })
        (write-room self false s.read_chan idle (which, data_) room))

-- Everything that comes in stands in the channel, in its order.
pub receive_all_lem :
    (self : Caller) (ps : List Packet) (w : World) (s : Server)
    → IsIdleServer s
    → length ps + s.read_chan.unread ≤ s.read_chan.max_size
    → AllHeld ps w
    → let s' = receive_all self ps w s in
      IsIdleServer s'
      × (items s'.read_chan ≡ items s.read_chan ++ ps)
      × (s'.write_chan ≡ s.write_chan)
unfolding receive_all
receive_all_lem self [] w s idle room held = (idle, sym (append-nil (items s.read_chan)), refl)
receive_all_lem self ((which, data_) ∷ ps) w s idle room (there, named, some_bytes, held) =
    let fits : s.read_chan.unread < s.read_chan.max_size = omega (arith, room) in
    let c = added (which, data_) s.read_chan in
    let s1 = record s { read_chan = c } in
    let step = receive-some self which data_ w s idle.reads fits there some_bytes in
    let (idle', all_items, same) =
      receive_all_lem self ps w s1
        (record {
          reads = added-IsIdle self false s.read_chan idle.reads (which, data_) fits;
          writes = idle.writes;
        })
        (omega (arith, room)) held in
    let goal = λ (t : Server).
      IsIdleServer (receive_all self ps w t)
      × (items (receive_all self ps w t).read_chan ≡ items s.read_chan ++ (which, data_) ∷ ps)
      × ((receive_all self ps w t).write_chan ≡ s.write_chan) in
    subst goal (sym step) (
      idle',
      all_items
          ∙ ap (λ l. l ++ ps) (items-added self false s.read_chan idle.reads (which, data_) fits)
          ∙ append_assoc (items s.read_chan) ((which, data_) ∷ []) ps,
      same,
    )

-- The parts of a list that is known to have a first element.
abbrev head_of : {A : Type 0} → A → List A → A
head_of d [] = d
head_of d (x ∷ xs) = x

abbrev tail_of : {A : Type 0} → List A → List A
tail_of [] = []
tail_of (x ∷ xs) = xs

some_there : {T : Type 0} (c : Channel T) (v : T) (vs : List T) → items c ≡ v ∷ vs → 0 < c.unread
some_there c v vs e = omega (arith, length-items c, ap length e)

-- One turn: the oldest block goes from the one channel to the other.
abbrev turned : Packet → Server → Server
turned p s = record s { read_chan = one_less s.read_chan; write_chan = added p s.write_chan }

echo_turn-turned :
    (self : Caller) (which : ℕ) (data_ : List ℕ) (ps : List Packet) (s : Server)
    → IsIdleServer s
    → items s.read_chan ≡ (which, data_) ∷ ps
    → s.write_chan.unread < s.write_chan.max_size
    → (which == 0) ≡ false
    → is_nil data_ ≡ false
    → echo_turn self s ≡ some (turned (which, data_) s)
unfolding echo_turn read_packet write_packet taken first_store
echo_turn-turned self which data_ ps s idle e room named some_bytes =
    let there = some_there s.read_chan (which, data_) ps e in
    let first : s.read_chan.data_array s.read_chan.r_index ≡ (which, data_) =
      ap (head_of (which, data_))
        (sym (items-one_less self false s.read_chan idle.reads there) ∙ e) in
    let s1 = record s { read_chan = one_less s.read_chan } in
    ap (λ (o : Outcome Packet). send_back self (record s { read_chan = o.channel }) (taken o))
      (read-some self false s.read_chan idle.reads 0 there)
    ∙ ap (λ p. send_back self s1 (got p)) first
    ∙ ap
        (λ b. put_write s1 (
          if b
          then none
          else if is_nil data_
          then none
          else some (write self (which, data_) false s.write_chan)))
        named
    ∙ ap
        (λ b.
          put_write s1 (if b then none else some (write self (which, data_) false s.write_chan)))
        some_bytes
    ∙ ap (λ o. put_write s1 (some o))
        (write-room self false s.write_chan idle.writes (which, data_) room)

pub echo_turns_lem :
    (self : Caller) (ps : List Packet) (w : World) (s : Server)
    → IsIdleServer s
    → items s.read_chan ≡ ps
    → length ps + s.write_chan.unread ≤ s.write_chan.max_size
    → AllHeld ps w
    → (s' : Server) × (echo_turns self (length ps) s ≡ some s')
      × IsIdleServer s'
      × (items s'.write_chan ≡ items s.write_chan ++ ps)
unfolding echo_turns
echo_turns_lem self [] w s idle e room held = (s, refl, idle, sym (append-nil (items s.write_chan)))
echo_turns_lem self ((which, data_) ∷ ps) w s idle e room (there, named, some_bytes, held) =
    let fits : s.write_chan.unread < s.write_chan.max_size = omega (arith, room) in
    let some_read = some_there s.read_chan (which, data_) ps e in
    let left : items (one_less s.read_chan) ≡ ps =
      ap tail_of (sym (items-one_less self false s.read_chan idle.reads some_read) ∙ e) in
    let (s', done_, idle', all_items) =
      echo_turns_lem self ps w (turned (which, data_) s)
        (record {
          reads = one_less-IsIdle self false s.read_chan idle.reads some_read;
          writes = added-IsIdle self false s.write_chan idle.writes (which, data_) fits;
        })
        left (omega (arith, room)) held in
    (
      s',
      ap then_turns (echo_turn-turned self which data_ ps s idle e fits named some_bytes) ∙ done_,
      idle',
      all_items
          ∙ ap (λ l. l ++ ps) (items-added self false s.write_chan idle.writes (which, data_) fits)
          ∙ append_assoc (items s.write_chan) ((which, data_) ∷ []) ps,
    )
  where
    then_turns : Option Server → Option Server
    then_turns o = elim o [ none ↦ none | some s' ↦ echo_turns self (length ps) s' ]
