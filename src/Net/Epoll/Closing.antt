-- ===== src/Net/Epoll/Closing.antt =====
-- What `close_fd` of net/epoll/epoll.cpp does with a socket that a sink owns, and with any other.
use chroutine.Prelude.{
  ℕ, suc, ◌≡◌, ◌≢◌, refl, ap, ◌∙◌, true, false, Option, some, List, [], ◌∷◌, ◌++◌, ◌==◌, arith,
  append_assoc,
}
use chroutine.Prelude.Ids.{contains, delete, Distinct, contains-delete}
use chroutine.Net.Epoll.{
  World, erase_fd, del_fd, shut, disown, mark_destroyed, end_close, close_handler,
}

erase_fd-erase_fd : (fd : ℕ) (m : List (ℕ × ℕ)) → erase_fd fd (erase_fd fd m) ≡ erase_fd fd m
unfolding erase_fd
erase_fd-erase_fd fd [] = refl
erase_fd-erase_fd fd ((k, h) ∷ m) = ground (arith, erase_fd-erase_fd fd m)

-- Without the descriptor.
abbrev pub removed : ℕ → World → World
removed h w = record w { fd_map = erase_fd (w.sockets h).fd w.fd_map }

pub del_fd-removed : (h : ℕ) (w : World) → h ≢ 0 → (w.sockets h).fd ≢ 0 → del_fd h w ≡ removed h w
unfolding del_fd
del_fd-removed h w real open_ = simp (not_null, not_zero) refl
  where
    not_null : (h == 0) ≡ false
    not_null = ground arith

    not_zero : ((w.sockets h).fd == 0) ≡ false
    not_zero = ground arith

end_close-unowned :
    (inner : Option World) (h : ℕ) (w : World)
    → contains h w.owned ≡ false
    → end_close inner h w ≡ some (shut h w)
unfolding end_close
end_close-unowned inner h w free = simp free refl

end_close-owned :
    (v : World) (h : ℕ) (w : World)
    → contains h w.owned ≡ true
    → end_close (some v) h w ≡ some (shut h (mark_destroyed h v))
unfolding end_close
end_close-owned v h w held = simp held refl

-- A socket that no sink owns: it is taken out of the table, and its descriptor is closed, once.
pub close_handler-unowned :
    (fuel h : ℕ) (w : World)
    → h ≢ 0
    → (w.sockets h).fd ≢ 0
    → contains h w.owned ≡ false
    → close_handler (suc fuel) h w ≡ some (shut h (removed h w))
unfolding close_handler
close_handler-unowned fuel h w real open_ free =
    ap (λ v. end_close (close_handler fuel h (disown h v)) h v) (del_fd-removed h w real open_)
    ∙ end_close-unowned (close_handler fuel h (disown h (removed h w))) h (removed h w) free

pub close_handler-owned :
    (fuel h : ℕ) (w : World)
    → h ≢ 0
    → (w.sockets h).fd ≢ 0
    → Distinct w.owned
    → contains h w.owned ≡ true
    → close_handler (suc (suc fuel)) h w
      ≡ some (shut h (mark_destroyed h (shut h (removed h (disown h (removed h w))))))
unfolding close_handler
close_handler-owned fuel h w real open_ d held =
    ap (λ v. end_close (close_handler (suc fuel) h (disown h v)) h v)
      (del_fd-removed h w real open_)
    ∙ ap (λ inner. end_close inner h (removed h w))
        (close_handler-unowned fuel h (disown h (removed h w)) real open_ gone)
    ∙ end_close-owned (shut h (removed h (disown h (removed h w)))) h (removed h w) held
  where
    gone : contains h (delete h w.owned) ≡ false
    gone = ground (arith, contains-delete h h w.owned d)

-- With any fuel from 2 on, `close_fd` on a socket that a sink owns returns: the socket is in no table
-- and in no sink any more and is destroyed, its descriptor has been closed twice, and the second
-- `::close` has read it from the destroyed socket.
pub close_handler-twice :
    (fuel h : ℕ) (w : World)
    → h ≢ 0
    → (w.sockets h).fd ≢ 0
    → Distinct w.owned
    → contains h w.owned ≡ true
    → contains h w.destroyed ≡ false
    → let fd = (w.sockets h).fd in
      (w' : World) × (close_handler (suc (suc fuel)) h w ≡ some w')
      × (w'.fd_map ≡ erase_fd fd w.fd_map)
      × (w'.owned ≡ delete h w.owned)
      × (w'.destroyed ≡ h ∷ w.destroyed)
      × (w'.closes ≡ w.closes ++ fd ∷ fd ∷ [])
      × (w'.faults ≡ w.faults ++ h ∷ [])
unfolding shut
close_handler-twice fuel h w real open_ d held alive = (
  shut h (mark_destroyed h (shut h (removed h (disown h (removed h w))))),
  close_handler-owned fuel h w real open_ d held,
  erase_fd-erase_fd (w.sockets h).fd w.fd_map,
  refl,
  refl,
  append_assoc w.closes ((w.sockets h).fd ∷ []) ((w.sockets h).fd ∷ []),
  ground arith,
)
