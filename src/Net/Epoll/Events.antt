-- ===== src/Net/Epoll/Events.antt =====
-- What `select` of net/epoll/epoll.cpp does with the events of a socket.
use chroutine.Prelude.{
  ℕ, suc, ◌≡◌, ◌≢◌, refl, sym, ap, ◌∙◌, Bool, true, false, ◌==◌, Option, none, some, List, [], ◌∷◌,
  ◌++◌, map, length, append_assoc, append-nil, if◌then◌else◌, arith,
}
use chroutine.Prelude.All.{all}
use chroutine.Prelude.Ids.{contains, Distinct}
use chroutine.Net.Socket.{Wrote, Got, bytes, ended, new_data, Count, count}
use chroutine.Net.Socket.Reading.{is_chunk, on_read-chunk, on_read-ended}
use chroutine.Net.Epoll
use chroutine.Net.Epoll.{
  World, close_handler, close_fd, deliver, after_count, then_write, read_loop, write_out, Event,
  serve, read_in, continue_in, get_handler, mod_own, mod_found, refused_mod, behind_mod, flush_out,
  on_new_connection,
}
use chroutine.Net.Epoll.Closing.{close_handler-twice}

deliver-owned :
    (h : ℕ) (bs : List ℕ) (w : World)
    → contains h w.owned ≡ true
    → deliver false h (new_data bs ∷ []) w ≡ some (record w { inbox = w.inbox ++ (h, bs) ∷ [] })
unfolding deliver
deliver-owned h bs w held = simp held refl

after_count-goes_on :
    (n h : ℕ) (w : World) (later : Option World) → after_count (count (suc n)) h w later ≡ later
unfolding after_count
after_count-goes_on n h w later = ground arith

-- The reads of an owned socket, no listener, that all bring data, and then none, where the channel of its sink is not
-- locked for ever: every chunk is written to that channel, in order, and the loop ends without a close.
pub read_loop-delivers :
    (h : ℕ) (chunks : List (List ℕ)) (w : World)
    → contains h w.owned ≡ true
    → (w.sockets h).is_listener ≡ false
    → all is_chunk chunks ≡ true
    → read_loop false h (map bytes chunks) w
      ≡ some (record w { inbox = w.inbox ++ map (λ bs. (h, bs)) chunks })
unfolding read_loop
read_loop-delivers h [] w held plain a =
    ap (λ l. some (record w { inbox = l })) (sym (append-nil w.inbox))
read_loop-delivers h ([] ∷ chunks) w held plain a = absurd (ground arith)
read_loop-delivers h ((b ∷ bs) ∷ chunks) w held plain a =
    ap (λ r. turn r.0 (deliver false h r.1 w))
      (on_read-chunk b bs (w.sockets h) plain (ground arith))
    ∙ ap (turn (count (length (b ∷ bs)))) (deliver-owned h (b ∷ bs) w held)
    ∙ after_count-goes_on (length bs) h taken_in (read_loop false h (map bytes chunks) taken_in)
    ∙ read_loop-delivers h chunks taken_in held plain (ground arith)
    ∙ ap (λ l. some (record w { inbox = l }))
        (append_assoc w.inbox ((h, b ∷ bs) ∷ []) (map (λ l. (h, l)) chunks))
  where
    turn : Count → Option World → Option World
    turn n r = elim r [
      | none ↦ none
      | some v ↦ after_count n h v (read_loop false h (map bytes chunks) v)
    ]

    taken_in : World
    taken_in = record w { inbox = w.inbox ++ (h, b ∷ bs) ∷ [] }

read_loop-ended :
    (stuck : Bool) (h : ℕ) (gots : List Got) (w : World)
    → h ≢ 0
    → (w.sockets h).is_listener ≡ false
    → read_loop stuck h (ended ∷ gots) w ≡ close_handler 2 h w
unfolding read_loop after_count deliver close_fd
read_loop-ended stuck h gots w real plain =
    ap
      (λ r. elim (deliver stuck h r.1 w) [
        | none ↦ none
        | some v ↦ after_count r.0 h v (read_loop stuck h gots v)
      ])
      (on_read-ended (w.sockets h) plain)
    ∙ ground arith

then_write-dead :
    (h : ℕ) (e : Event) (w : World)
    → e.writable ≡ true
    → contains h w.destroyed ≡ true
    → then_write h e (some w) ≡ some (record w { faults = w.faults ++ h ∷ []; wild = true })
unfolding then_write write_out continue_in
then_write-dead h e w out_ dead = simp (out_, dead) refl

-- The end of the stream and `EPOLLOUT` in one event of a socket that a sink owns: the socket is
-- destroyed in the first branch, closed twice, and then the second calls its `on_write`.
pub serve-hang_up :
    (h : ℕ) (e : Event) (gots : List Got) (w : World)
    → h ≢ 0
    → (w.sockets h).fd ≢ 0
    → (w.sockets h).is_listener ≡ false
    → Distinct w.owned
    → contains h w.owned ≡ true
    → contains h w.destroyed ≡ false
    → e.readable ≡ true
    → e.writable ≡ true
    → e.gots ≡ ended ∷ gots
    → (w' : World) × (serve h e w ≡ some w')
      × (w'.closes ≡ w.closes ++ (w.sockets h).fd ∷ (w.sockets h).fd ∷ [])
      × (w'.faults ≡ w.faults ++ h ∷ h ∷ [])
      × (w'.wild ≡ true)
unfolding serve read_in
serve-hang_up h e gots w real open_ plain d held alive in_ out_ over =
    let (v, closed, _, _, destroyed, closes, faults) =
      close_handler-twice 0 h w real open_ d held alive in
    (
      record v { faults = v.faults ++ h ∷ []; wild = true },
      ap (then_write h e) (
            ap (λ b. if b then read_in h e w else some w) in_
            ∙ ap (λ b. if b then on_new_connection e.accepts w else read_loop e.stuck h e.gots w)
                plain
            ∙ ap (λ l. read_loop e.stuck h l w) over
            ∙ read_loop-ended e.stuck h gots w real plain
            ∙ closed)
          ∙ then_write-dead h e v out_ (ap (contains h) destroyed ∙ ground arith),
      closes,
      ap (λ l. l ++ h ∷ []) faults ∙ append_assoc w.faults (h ∷ []) (h ∷ []),
      refl,
    )

-- Where `epoll_ctl` refuses the first `mod_fd` of `on_write`, for a socket that is not destroyed, that has a
-- positive descriptor, that the table has under it, and that a sink owns, where no socket is owned twice: the
-- socket is destroyed in its own `on_write`, its descriptor is closed twice, and the destroyed object is
-- used twice, by the end of `on_close` and by `on_write`, which goes on in it.
pub write_out-refused :
    (h : ℕ) (ws : List Wrote) (second : Bool) (w : World)
    → h ≢ 0
    → (w.sockets h).fd ≢ 0
    → Distinct w.owned
    → contains h w.owned ≡ true
    → contains h w.destroyed ≡ false
    → get_handler (w.sockets h).fd w.fd_map ≡ some h
    → (w' : World) × (write_out h ws (false, second) w ≡ some w')
      × (w'.destroyed ≡ h ∷ w.destroyed)
      × (w'.closes ≡ w.closes ++ (w.sockets h).fd ∷ (w.sockets h).fd ∷ [])
      × (w'.faults ≡ w.faults ++ h ∷ h ∷ [])
      × (w'.wild ≡ true)
unfolding write_out mod_own Epoll.mod_fd mod_found refused_mod behind_mod continue_in close_fd
write_out-refused h ws second w real open_ d held alive there =
    let (v, closed, _, _, destroyed, closes, faults) =
      close_handler-twice 0 h w real open_ d held alive in
    let dead : contains h v.destroyed ≡ true = ap (contains h) destroyed ∙ ground arith in
    let rest = flush_out h ws second in
    let not_null : (h == 0) ≡ false = ground arith in
    (
      record v { faults = v.faults ++ h ∷ []; wild = true },
      ap (λ b. if b then some (fault h w) else mod_own h false rest w) alive
          ∙ ap (λ f. behind_mod h rest (mod_found f false w)) there
          ∙ ap (λ b. behind_mod h rest (refused_mod (if b then some w else close_handler 2 h w)))
              not_null
          ∙ ap (λ r. behind_mod h rest (refused_mod r)) closed
          ∙ ap (λ b. if b then some (fault h v) else rest v) dead,
      destroyed,
      closes,
      ap (λ l. l ++ h ∷ []) faults ∙ append_assoc w.faults (h ∷ []) (h ∷ []),
      refl,
    )
  where
    fault : ℕ → World → World
    fault g u = record u { faults = u.faults ++ g ∷ []; wild = true }
