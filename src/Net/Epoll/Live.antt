-- ===== src/Net/Epoll/Live.antt =====
-- The table of net/epoll/epoll.cpp through `select`: which handlers it has.
use chroutine.Prelude.{
  ℕ, ◌≡◌, ◌≢◌, refl, sym, ap, ◌∙◌, subst, inl, inr, Bool, false, Option, none, some, List, [], ◌∷◌,
  ◌==◌, ==_iff, if◌then◌else◌, arith, Bool-cases,
}
use chroutine.Prelude.Ids.{contains, Distinct, Distinct-delete}
use chroutine.Net.Epoll.{
  World, clear_old, enter, add_fd, get_handler, erase_fd, shut, disown, mark_destroyed, close_fd,
}
use chroutine.Net.Epoll.Closing.{
  removed, del_fd-removed, close_handler-unowned, close_handler-owned,
}

-- The handlers of the table are there, have the descriptors that they are found by, and none of them is
-- destroyed; a sink owns a socket once.
pub record IsLive (w : World) : Type 0 where
  pub owned_once : Distinct w.owned
  pub live :
      (fd h : ℕ)
      → get_handler fd w.fd_map ≡ some h
      → (h ≢ 0) × (fd ≢ 0) × ((w.sockets h).fd ≡ fd) × (contains h w.destroyed ≡ false)

abbrev pub Lives : Option World → Type 0
Lives none = ⊥
Lives (some w) = IsLive w

get_handler-erase_fd :
    (k fd : ℕ) (m : List (ℕ × ℕ))
    → get_handler fd (erase_fd k m) ≡ (if fd == k then none else get_handler fd m)
unfolding get_handler erase_fd
get_handler-erase_fd k fd [] = ground arith
get_handler-erase_fd k fd ((j, g) ∷ m) = ground (arith, get_handler-erase_fd k fd m)

-- What an erased descriptor leaves is under another one.
erase_fd-other :
    (k fd h : ℕ) (m : List (ℕ × ℕ))
    → get_handler fd (erase_fd k m) ≡ some h
    → (fd ≢ k) × (get_handler fd m ≡ some h)
erase_fd-other k fd h m e = elim (Bool-cases (fd == k)) [
  | inl same ↦ absurd (
      none_some h (
        sym (ap (λ b. if b then none else get_handler fd m) same)
        ∙ sym (get_handler-erase_fd k fd m)
        ∙ e))
  | inr differs ↦ (
    ground arith,
    sym (ap (λ b. if b then none else get_handler fd m) differs)
        ∙ sym (get_handler-erase_fd k fd m)
        ∙ e,
  )
]
  where
    none_some : (x : ℕ) → none ≡ some x → ⊥
    none_some x p = ground (arith, p)

-- Without the entry of a handler that the table has.
removed-IsLive : (h : ℕ) (w : World) → IsLive w → IsLive (removed h w)
removed-IsLive h w l = record {
  owned_once = l.owned_once;
  live = λ fd g e. l.live fd g (erase_fd-other (w.sockets h).fd fd g w.fd_map e).1;
}

-- The entries that are left do not have it.
removed-other :
    (h fd g : ℕ) (w : World)
    → IsLive w
    → get_handler fd (erase_fd (w.sockets h).fd w.fd_map) ≡ some g
    → (g == h) ≡ false
removed-other h fd g w l e =
    let (differs, there) = erase_fd-other (w.sockets h).fd fd g w.fd_map e in
    elim (Bool-cases (g == h)) [
      | inr other ↦ other
      | inl same ↦
          absurd
            (differs (sym (l.live fd g there).2 ∙ ap (λ a. (w.sockets a).fd) ((==_iff g h).0 same)))
    ]

shut-IsLive : (h : ℕ) (w : World) → IsLive w → IsLive (shut h w)
unfolding shut
shut-IsLive h w l = record { owned_once = l.owned_once; live = l.live }

disown-IsLive : (h : ℕ) (w : World) → IsLive w → IsLive (disown h w)
disown-IsLive h w l = record { owned_once = Distinct-delete h w.owned l.owned_once; live = l.live }

-- A handler that the table has not may be destroyed.
mark_destroyed-IsLive :
    (h : ℕ) (w : World)
    → IsLive w
    → ((fd g : ℕ) → get_handler fd w.fd_map ≡ some g → (g == h) ≡ false)
    → IsLive (mark_destroyed h w)
mark_destroyed-IsLive h w l absent = record {
  owned_once = l.owned_once;
  live = λ fd g e. let (a, b, c, d) = l.live fd g e in (a, b, c, ground (arith, absent fd g e, d));
}

-- `close_fd` of a handler that the table has.
pub close_fd-Lives :
    (fd h : ℕ) (w : World) → get_handler fd w.fd_map ≡ some h → IsLive w → Lives (close_fd h w)
unfolding close_fd shut
close_fd-Lives fd h w e l =
    let (real, named, at, alive) = l.live fd h e in
    let open_ : (w.sockets h).fd ≢ 0 = λ z. named (sym at ∙ z) in
    let not_null : (h == 0) ≡ false = ground arith in
    let once = removed-IsLive h w l in
    let twice = removed-IsLive h (disown h (removed h w)) (disown-IsLive h (removed h w) once) in
    simp not_null (elim (Bool-cases (contains h w.owned)) [
      | inr free ↦
          subst Lives (sym (close_handler-unowned 1 h w real open_ free))
            (shut-IsLive h (removed h w) once)
      | inl held ↦ subst Lives (sym (close_handler-owned 0 h w real open_ l.owned_once held)) (
          shut-IsLive h (mark_destroyed h (shut h (removed h (disown h (removed h w))))) (
            mark_destroyed-IsLive h (shut h (removed h (disown h (removed h w))))
              (shut-IsLive h (removed h (disown h (removed h w))) twice)
              (λ k g there.
                removed-other h k g w l
                  (erase_fd-other (w.sockets h).fd k g (erase_fd (w.sockets h).fd w.fd_map)
                    there).1)))
    ])

-- The world without the handler that has a descriptor.
abbrev Cleared : World → World → Type 0
Cleared w v =
    IsLive v × ((h : ℕ) → (v.sockets h).fd ≡ (w.sockets h).fd) × (v.destroyed ≡ w.destroyed)

pub clear_old-Cleared :
    (fd : ℕ) (found : Option ℕ) (w : World)
    → get_handler fd w.fd_map ≡ found
    → IsLive w
    → Cleared w (clear_old found w)
unfolding clear_old
clear_old-Cleared fd none w e l = (l, (λ h. refl), refl)
clear_old-Cleared fd (some old) w e l =
    let (real, named, at, alive) = l.live fd old e in
    subst (Cleared w) (sym (del_fd-removed old w real (λ z. named (sym at ∙ z))))
      (removed-IsLive old w l, (λ h. refl), refl)

enter-IsLive :
    (fd h : ℕ) (w : World)
    → h ≢ 0
    → fd ≢ 0
    → (w.sockets h).fd ≡ fd
    → contains h w.destroyed ≡ false
    → IsLive w
    → IsLive (enter fd h w)
unfolding enter get_handler
enter-IsLive fd h w real named at alive l = record {
  owned_once = l.owned_once;
  live = λ k g e. elim (Bool-cases (fd == k)) [
    | inl same ↦
        let this : h ≡ g = ground (arith, e, same) in
        subst (λ a. (a ≢ 0) × (k ≢ 0) × ((w.sockets a).fd ≡ k) × (contains a w.destroyed ≡ false))
          this
          (subst
            (λ d. (h ≢ 0) × (d ≢ 0) × ((w.sockets h).fd ≡ d) × (contains h w.destroyed ≡ false))
            ((==_iff fd k).0 same) (real, named, at, alive))
    | inr differs ↦
        l.live k g (sym (ap (λ b. if b then some h else get_handler k w.fd_map) differs) ∙ e)
  ];
}

get_handler-enter : (fd h : ℕ) (w : World) → get_handler fd (enter fd h w).fd_map ≡ some h
unfolding enter get_handler
get_handler-enter fd h w =
    ap (λ b. if b then some h else get_handler fd w.fd_map) ((==_iff fd fd).1 refl)

-- A handler that is there, has a descriptor and is not destroyed is added; the system may refuse it.
pub add_fd-Lives :
    (h : ℕ) (ok : Bool) (w : World)
    → h ≢ 0
    → (w.sockets h).fd ≢ 0
    → contains h w.destroyed ≡ false
    → IsLive w
    → Lives (add_fd h ok w)
unfolding add_fd
add_fd-Lives h ok w real open_ alive l =
    let fd = (w.sockets h).fd in
    let v = clear_old (get_handler fd w.fd_map) w in
    let (live_v, fds, gone) = clear_old-Cleared fd (get_handler fd w.fd_map) w refl l in
    let added = enter-IsLive fd h v real open_ (fds h) (ap (contains h) gone ∙ alive) live_v in
    let not_null : (h == 0) ≡ false = ground arith in
    let not_zero : ((w.sockets h).fd == 0) ≡ false = ground arith in
    elim (Bool-cases ok) [
      | inl accepted ↦ simp (not_null, not_zero, accepted) added
      | inr refused ↦
          simp (not_null, not_zero, refused)
            (close_fd-Lives fd h (enter fd h v) (get_handler-enter fd h v) added)
    ]
