-- ===== src/Net/Epoll/Writes.antt =====
-- `on_write` of a socket in `select` of net/epoll/epoll.cpp keeps the table live, whatever its calls of
-- `mod_fd` come to.
use chroutine.Prelude.{
  ℕ, ◌≡◌, refl, sym, ap, ◌∙◌, inl, inr, Option, none, some, List, ◌==◌, ==_iff, if◌then◌else◌, Bool,
  true, false, Bool-cases,
}
use chroutine.Prelude.Ids.{contains}
use chroutine.Net.Socket.{Wrote, on_write, flush}
use chroutine.Net.Socket.Resend.{fd-on_write}
use chroutine.Net.Epoll
use chroutine.Net.Epoll.{
  World, Event, get_handler, close_fd, deliver, after_count, read_loop, write_out, flush_out,
  mod_own, behind_mod, mod_found, refused_mod, continue_in, put_socket, then_write, serve, read_in,
  handle, handle_all, select,
}
use chroutine.Net.Epoll.Live.{IsLive, Lives, close_fd-Lives}

-- What a socket writes changes no descriptor.
written-IsLive :
    (h : ℕ) (ws : List Wrote) (w : World)
    → IsLive w
    → IsLive (put_socket h (on_write ws (w.sockets h)).2 w)
written-IsLive h ws w l = record {
  owned_once = l.owned_once;
  live = λ fd g e. let (a, b, c, d) = l.live fd g e in (a, b, same g ∙ c, d);
}
  where
    same :
        (g : ℕ)
        → (if g == h then (on_write ws (w.sockets h)).2 else w.sockets g).fd ≡ (w.sockets g).fd
    same g = elim (Bool-cases (g == h)) [
      | inl this ↦
          ap (λ b. (if b then (on_write ws (w.sockets h)).2 else w.sockets g).fd) this
          ∙ fd-on_write ws (w.sockets h)
          ∙ ap (λ a. (w.sockets a).fd) (sym ((==_iff g h).0 this))
      | inr other ↦ ap (λ b. (if b then (on_write ws (w.sockets h)).2 else w.sockets g).fd) other
    ]

-- The same for what `mod_fd` returns.
abbrev pub ModLives : Option (Bool × World) → Type 0
ModLives none = ⊥
ModLives (some (ok, w)) = IsLive w

refused_mod-ModLives : (r : Option World) → Lives r → ModLives (refused_mod r)
unfolding refused_mod
refused_mod-ModLives none l = l
refused_mod-ModLives (some v) l = l

mod_found-ModLives :
    (fd : ℕ) (found : Option ℕ) (ok : Bool) (w : World)
    → get_handler fd w.fd_map ≡ found
    → IsLive w
    → ModLives (mod_found found ok w)
unfolding mod_found
mod_found-ModLives fd none ok w there l = l
mod_found-ModLives fd (some h) true w there l = l
mod_found-ModLives fd (some h) false w there l =
    refused_mod-ModLives (close_fd h w) (close_fd-Lives fd h w there l)

mod_fd-ModLives : (fd : ℕ) (ok : Bool) (w : World) → IsLive w → ModLives (Epoll.mod_fd fd ok w)
unfolding Epoll.mod_fd
mod_fd-ModLives fd ok w l = mod_found-ModLives fd (get_handler fd w.fd_map) ok w refl l

-- The part of a member function behind a call that may have destroyed its object.
module _ (h : ℕ) (body : World → Option World)
    (lives : (v : World) → IsLive v → Lives (body v)) where
  continue_in-Lives : (w : World) → IsLive w → Lives (continue_in h body w)
  unfolding continue_in
  continue_in-Lives w l = elim (Bool-cases (contains h w.destroyed)) [
    | inl dead ↦ simp dead (record { owned_once = l.owned_once; live = l.live })
    | inr alive ↦ simp alive (lives w l)
  ]

  behind_mod-Lives : (r : Option (Bool × World)) → ModLives r → Lives (behind_mod h body r)
  unfolding behind_mod
  behind_mod-Lives none l = l
  behind_mod-Lives (some (ok, v)) l = continue_in-Lives v l

  mod_own-Lives : (ok : Bool) (w : World) → IsLive w → Lives (mod_own h ok body w)
  unfolding mod_own
  mod_own-Lives ok w l =
      behind_mod-Lives (Epoll.mod_fd (w.sockets h).fd ok w)
        (mod_fd-ModLives (w.sockets h).fd ok w l)

flush_out-Lives :
    (h : ℕ) (ws : List Wrote) (ok : Bool) (w : World) → IsLive w → Lives (flush_out h ws ok w)
unfolding flush_out
flush_out-Lives h ws ok w l =
    let written = put_socket h (on_write ws (w.sockets h)).2 w in
    let still = written-IsLive h ws w l in
    elim (Bool-cases (flush ws (w.sockets h).pending).aborted) [
      | inl short ↦ simp short (mod_own-Lives h (λ v. some v) (λ v k. k) ok written still)
      | inr whole ↦ simp whole still
    ]

pub write_out-Lives :
    (h : ℕ) (ws : List Wrote) (mods : Bool × Bool) (w : World)
    → IsLive w
    → Lives (write_out h ws mods w)
unfolding write_out
write_out-Lives h ws (first, second) w l =
    continue_in-Lives h (mod_own h first (flush_out h ws second))
      (mod_own-Lives h (flush_out h ws second) (flush_out-Lives h ws second) first) w l
