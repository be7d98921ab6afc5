-- ===== src/Net/Epoll/Accepts.antt =====
-- The connections that a listener takes during `select` of net/epoll/epoll.cpp keep the table live.
use chroutine.Prelude.{
  ℕ, ◌≡◌, ◌≢◌, refl, sym, ap, ◌∙◌, subst, inl, inr, Bool, false, Option, none, some, List, [], ◌∷◌,
  ◌++◌, ◌==◌, ==_iff, if◌then◌else◌, arith, Bool-cases,
}
use chroutine.Prelude.Ids.{contains, Distinct-snoc}
use chroutine.Net.Socket.{Socket}
use chroutine.Net.Epoll.{
  World, put_socket, get_handler, new_socket, add_fd, del_fd, erase_fd, clear_old, close_handler,
  enter, close_fd, shut, accept_one, on_new_connection,
}
use chroutine.Net.Epoll.Closing.{close_handler-unowned}
use chroutine.Net.Epoll.Live.{IsLive, Lives, add_fd-Lives}

-- The address of a new object: none of a handler in the table, of an object of a sink, or of one that
-- was destroyed.
pub record IsFresh (a : ℕ) (w : World) : Type 0 where
  pub real : a ≢ 0
  pub alive : contains a w.destroyed ≡ false
  pub unowned : contains a w.owned ≡ false
  pub unlisted : (fd : ℕ) → get_handler fd w.fd_map ≢ some a

-- The new objects of a run of `accept` are fresh, each when it is made.
abbrev pub AllFresh : List (ℕ × ℕ × Bool) → World → Type 0
AllFresh [] w = Unit
AllFresh ((fd, address, ok) ∷ more) w =
    fd ≢ 0
    → IsFresh address w × ((v : World) → accept_one fd address ok w ≡ some v → AllFresh more v)

put_socket-IsLive :
    (a : ℕ) (sock : Socket) (w : World) → IsFresh a w → IsLive w → IsLive (put_socket a sock w)
put_socket-IsLive a sock w fresh l = record {
  owned_once = l.owned_once;
  live = λ fd g e.
      let (real, named, at, alive) = l.live fd g e in
      (
        real,
        named,
        elim (Bool-cases (g == a)) [
          | inl same ↦ absurd (fresh.unlisted fd (e ∙ ap some ((==_iff g a).0 same)))
          | inr differs ↦ ap (λ b. (if b then sock else w.sockets g).fd) differs ∙ at
        ],
        alive,
      );
}

-- Taking an entry out changes the table alone.
table_of-del_fd : (h : ℕ) (w : World) → (m : List (ℕ × ℕ)) × (del_fd h w ≡ record w { fd_map = m })
unfolding del_fd
table_of-del_fd h w = elim (Bool-cases (h == 0)) [
  | inl null ↦ (w.fd_map, simp null refl)
  | inr real ↦ elim (Bool-cases ((w.sockets h).fd == 0)) [
    | inl closed ↦ (w.fd_map, simp (real, closed) refl)
    | inr open_ ↦ (erase_fd (w.sockets h).fd w.fd_map, simp (real, open_) refl)
  ]
]

table_of-clear_old :
    (found : Option ℕ) (w : World)
    → (m : List (ℕ × ℕ)) × (clear_old found w ≡ record w { fd_map = m })
unfolding clear_old
table_of-clear_old none w = (w.fd_map, refl)
table_of-clear_old (some old) w = table_of-del_fd old w

abbrev OwnsAs : List ℕ → Option World → Type 0
OwnsAs l none = Unit
OwnsAs l (some w) = w.owned ≡ l

-- `add_fd` of an object that no sink owns yet leaves the sinks what they own.
add_fd-OwnsAs :
    (a : ℕ) (ok : Bool) (w : World)
    → a ≢ 0
    → (w.sockets a).fd ≢ 0
    → contains a w.owned ≡ false
    → OwnsAs w.owned (add_fd a ok w)
unfolding add_fd close_fd enter shut
add_fd-OwnsAs a ok w real open_ unowned =
    let fd = (w.sockets a).fd in
    let (m, cleared) = table_of-clear_old (get_handler fd w.fd_map) w in
    let entered = enter fd a (record w { fd_map = m }) in
    let not_null : (a == 0) ≡ false = ground arith in
    let not_zero : ((w.sockets a).fd == 0) ≡ false = ground arith in
    elim (Bool-cases ok) [
      | inl accepted ↦ simp (not_null, not_zero, accepted) (ap (λ (v : World). v.owned) cleared)
      | inr refused ↦
          simp (not_null, not_zero, refused)
            (subst (λ v. OwnsAs w.owned (close_handler 2 a (enter fd a v))) (sym cleared)
              (subst (OwnsAs w.owned) (sym (close_handler-unowned 1 a entered real open_ unowned))
                refl))
    ]

accept_one-Lives :
    (fd a : ℕ) (ok : Bool) (w : World)
    → fd ≢ 0
    → IsFresh a w
    → IsLive w
    → Lives (accept_one fd a ok w)
unfolding accept_one new_socket
accept_one-Lives fd a ok w open_ fresh l =
    let made = put_socket a (new_socket fd) w in
    let at : (made.sockets a).fd ≡ fd =
      ap (λ b. (if b then new_socket fd else w.sockets a).fd) ((==_iff a a).1 refl)
      ∙ fd-new_socket fd in
    let named : (made.sockets a).fd ≢ 0 = λ z. open_ (sym at ∙ z) in
    entered (add_fd a ok made)
      (add_fd-Lives a ok made fresh.real named fresh.alive
        (put_socket-IsLive a (new_socket fd) w fresh l))
      (add_fd-OwnsAs a ok made fresh.real named fresh.unowned)
  where
    fd-new_socket : (k : ℕ) → (new_socket k).fd ≡ k
    fd-new_socket k = refl

    entered :
        (r : Option World)
        → Lives r
        → OwnsAs w.owned r
        → Lives (elim r [ none ↦ none | some v ↦ some (record v { owned = v.owned ++ a ∷ [] }) ])
    entered none lives same = lives
    entered (some v) lives same = record {
      owned_once = Distinct-snoc a v.owned lives.owned_once (ap (contains a) same ∙ fresh.unowned);
      live = lives.live;
    }

-- The rest of the loop, if the connection is taken.
go_on :
    (more : List (ℕ × ℕ × Bool)) (r : Option World)
    → ((v : World) → AllFresh more v → IsLive v → Lives (on_new_connection more v))
    → Lives r
    → ((v : World) → r ≡ some v → AllFresh more v)
    → Lives (elim r [ none ↦ none | some v ↦ on_new_connection more v ])
go_on more none rest lives fresh = lives
go_on more (some v) rest lives fresh = rest v (fresh v refl) lives

-- Whatever `accept` and `epoll_ctl` return, the new connections keep the table live.
pub on_new_connection-Lives :
    (accepts : List (ℕ × ℕ × Bool)) (w : World)
    → AllFresh accepts w
    → IsLive w
    → Lives (on_new_connection accepts w)
unfolding on_new_connection
on_new_connection-Lives [] w fresh l = l
on_new_connection-Lives ((fd, a, ok) ∷ more) w new l = elim (Bool-cases (fd == 0)) [
  | inl ended ↦ simp ended l
  | inr open_ ↦
      let some_fd : fd ≢ 0 = ground arith in
      let (fresh, later) = new some_fd in
      simp open_ (
        go_on more (accept_one fd a ok w) (on_new_connection-Lives more)
          (accept_one-Lives fd a ok w some_fd fresh l) later)
]
