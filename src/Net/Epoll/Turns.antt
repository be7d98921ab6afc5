-- ===== src/Net/Epoll/Turns.antt =====
-- `select` of net/epoll/epoll.cpp leaves no destroyed handler in the table.
use chroutine.Prelude.{
  ℕ, ◌≡◌, refl, sym, subst, inl, inr, false, Option, none, some, List, [], ◌∷◌, ◌++◌, take, ◌==◌,
  if◌then◌else◌, Bool-cases,
}
use chroutine.Prelude.Ids.{contains}
use chroutine.Net.Socket.{
  Socket, Wrote, Got, Effect, new_data, mod_fd, conn_result, new_connection, closed, Count, count,
  minus_one, on_read, on_write, flush,
}
use chroutine.Net.Socket
use chroutine.Net.Epoll.{
  World, Event, get_handler, close_fd, deliver, after_count, read_loop, then_write, serve, read_in,
  handle, handle_all, select,
}
use chroutine.Net.Epoll.Live.{IsLive, Lives, close_fd-Lives}
use chroutine.Net.Epoll.Accepts.{AllFresh, on_new_connection-Lives}
use chroutine.Net.Epoll.Writes.{write_out-Lives}

-- Where the channel is not locked for ever, only the inbox changes with what a sink gets.
deliver-inbox :
    (h : ℕ) (es : List Effect) (w : World)
    → (l : List (ℕ × List ℕ)) × (deliver false h es w ≡ some (record w { inbox = l }))
unfolding deliver
deliver-inbox h [] w = (w.inbox, refl)
deliver-inbox h (new_data bs ∷ es) w = elim (Bool-cases (contains h w.owned)) [
  | inl held ↦ simp held (deliver-inbox h es (record w { inbox = w.inbox ++ (h, bs) ∷ [] }))
  | inr dropped ↦ simp dropped (deliver-inbox h es w)
]
deliver-inbox h (mod_fd b ∷ es) w = deliver-inbox h es w
deliver-inbox h (conn_result c ∷ es) w = deliver-inbox h es w
deliver-inbox h (new_connection ∷ es) w = deliver-inbox h es w
deliver-inbox h (closed ∷ es) w = deliver-inbox h es w
deliver-inbox h (Socket.close_fd fd ∷ es) w = deliver-inbox h es w

-- A live world whose table has the handler `h` under `fd`.
abbrev Has : ℕ → ℕ → World → Type 0
Has fd h w = (get_handler fd w.fd_map ≡ some h) × IsLive w

after_count-Lives :
    (n : Count) (fd h : ℕ) (w : World) (later : Option World)
    → Has fd h w
    → Lives later
    → Lives (after_count n h w later)
unfolding after_count
after_count-Lives minus_one fd h w later (e, l) rest = l
after_count-Lives (count k) fd h w later (e, l) rest = elim (Bool-cases (k == 0)) [
  | inl ended ↦ simp ended (close_fd-Lives fd h w e l)
  | inr more ↦ simp more rest
]

read_loop-Lives :
    (gots : List Got) (fd h : ℕ) (w : World) → Has fd h w → Lives (read_loop false h gots w)
unfolding read_loop
read_loop-Lives [] fd h w (e, l) = l
read_loop-Lives (got ∷ gots) fd h w (e, l) =
    let (n, es) = on_read got (w.sockets h) in
    let (inbox, same) = deliver-inbox h es w in
    let w' = record w { inbox = inbox } in
    let has' : Has fd h w' = (e, record { owned_once = l.owned_once; live = l.live }) in
    subst
      (λ r. Lives (elim r [ none ↦ none | some v ↦ after_count n h v (read_loop false h gots v) ]))
      (sym same)
      (after_count-Lives n fd h w' (read_loop false h gots w') has'
        (read_loop-Lives gots fd h w' has'))

then_write-Lives : (h : ℕ) (e : Event) (r : Option World) → Lives r → Lives (then_write h e r)
unfolding then_write
then_write-Lives h e (some w) l = elim (Bool-cases e.writable) [
  | inl out_ ↦ simp out_ (write_out-Lives h e.wrotes e.mods w l)
  | inr none_ ↦ simp none_ l
]
then_write-Lives h e none l = elim l [ ]

read_in-Lives :
    (h : ℕ) (e : Event) (w : World)
    → get_handler e.fd w.fd_map ≡ some h
    → AllFresh e.accepts w
    → e.stuck ≡ false
    → IsLive w
    → Lives (read_in h e w)
unfolding read_in
read_in-Lives h e w there fresh free l = elim (Bool-cases (w.sockets h).is_listener) [
  | inl listens ↦ simp listens (on_new_connection-Lives e.accepts w fresh l)
  | inr plain ↦ simp plain (
      subst (λ b. Lives (read_loop b h e.gots w)) (sym free)
        (read_loop-Lives e.gots e.fd h w (there, l)))
]

handle-found :
    (found : Option ℕ) (e : Event) (w : World)
    → get_handler e.fd w.fd_map ≡ found
    → AllFresh e.accepts w
    → e.stuck ≡ false
    → IsLive w
    → Lives (elim found [ none ↦ some w | some h ↦ if e.error then close_fd h w else serve h e w ])
unfolding serve
handle-found none e w there fresh free l = l
handle-found (some h) e w there fresh free l = elim (Bool-cases e.error) [
  | inl error ↦ simp error (close_fd-Lives e.fd h w there l)
  | inr fine ↦ elim (Bool-cases e.readable) [
    | inl readable ↦
        simp (fine, readable)
          (then_write-Lives h e (read_in h e w) (read_in-Lives h e w there fresh free l))
    | inr quiet ↦ simp (fine, quiet) (then_write-Lives h e (some w) l)
  ]
]

-- The channels of the sinks are not locked for ever, and the objects of new connections are fresh, each
-- when it is made, through all the events.
abbrev pub AllNew : List Event → World → Type 0
AllNew [] w = Unit
AllNew (e ∷ es) w =
    AllFresh e.accepts w × (e.stuck ≡ false) × ((v : World) → handle e w ≡ some v → AllNew es v)

-- The rest of the events, if there is a rest.
go_on :
    (es : List Event) (r : Option World)
    → ((v : World) → AllNew es v → IsLive v → Lives (handle_all es v))
    → Lives r
    → ((v : World) → r ≡ some v → AllNew es v)
    → Lives (elim r [ none ↦ none | some v ↦ if v.wild then some v else handle_all es v ])
go_on es none rest lives fresh = lives
go_on es (some v) rest lives fresh = elim (Bool-cases v.wild) [
  | inl stops ↦ simp stops lives
  | inr goes_on ↦ simp goes_on (rest v (fresh v refl) lives)
]

handle_all-Lives : (es : List Event) (w : World) → AllNew es w → IsLive w → Lives (handle_all es w)
unfolding handle_all handle
handle_all-Lives [] w fresh l = l
handle_all-Lives (e ∷ es) w (fresh, free, later) l =
    go_on es (handle e w) (handle_all-Lives es)
      (handle-found (get_handler e.fd w.fd_map) e w refl fresh free l) later

-- In a world where the handlers of the table are there, have the descriptors that they are found by, and
-- are not destroyed, and where a sink owns no socket twice: whatever the events, the reads, the writes and
-- the connections that its listeners take, if each of these has a new object and no channel that a sink
-- writes to is locked for ever, `select` returns, unless it calls a member function of a destroyed object;
-- and the world, then or up to that call, is such a one again.
pub select-Lives :
    (events : List Event) (w : World)
    → AllNew (take 8 events) w
    → IsLive w
    → Lives (select events w)
unfolding select
select-Lives events w fresh l = handle_all-Lives (take 8 events) w fresh l
