-- ===== src/Net/Socket/Send.antt =====
-- The bytes that `write` of net/epoll/socket.cpp is given, in what `::write` took and what is pending.
use chroutine.Prelude.{
  ℕ, ◌+◌, ◌≡◌, refl, sym, ap, ◌∙◌, inl, inr, true, List, [], ◌∷◌, ◌++◌, length, take, drop, is_nil,
  concat, concat-append, append_assoc, append-nil, take-append-drop, length-append, if◌then◌else◌,
  arith, Bool-cases,
}
use chroutine.Net.Socket.{
  Wrote, taken, interrupted, refused, Effect, Socket, send_loop, send_now, queue_up, write,
}

-- What `::write` took and what is left are the input.
pub took-left :
    (ws : List Wrote) (bs : List ℕ) → (send_loop ws bs).took ++ (send_loop ws bs).left ≡ bs
unfolding send_loop
took-left ws [] = refl
took-left [] (b ∷ bs) = refl
took-left (taken n ∷ ws) (b ∷ bs) =
    ap (λ l. b ∷ l)
      (append_assoc (take n bs) (send_loop ws (drop n bs)).took (send_loop ws (drop n bs)).left
        ∙ ap (λ l. take n bs ++ l) (took-left ws (drop n bs))
        ∙ take-append-drop n bs)
took-left (interrupted ∷ ws) (b ∷ bs) = took-left ws (b ∷ bs)
took-left (refused ∷ ws) (b ∷ bs) = refl

pub eq_of_is_nil : {A : Type 0} (l : List A) → is_nil l ≡ true → l ≡ []
eq_of_is_nil [] h = refl
eq_of_is_nil (x ∷ xs) h = absurd (ground arith)

concat_left : (l : List ℕ) → concat (if is_nil l then [] else l ∷ []) ≡ l
concat_left [] = refl
concat_left (x ∷ xs) = append-nil (x ∷ xs)

-- What a call leaves of a socket and the bytes that it was given.
abbrev Accounts : Socket → List ℕ → ℕ × List Effect × Socket → Type 0
Accounts s buf (n, es, s') =
    (s'.sent ++ concat s'.pending ≡ (s.sent ++ concat s.pending) ++ buf)
    × (length s'.sent ≡ length s.sent + n)

send_now-Accounts :
    (ws : List Wrote) (buf : List ℕ) (s : Socket)
    → s.pending ≡ []
    → Accounts s buf (send_now ws buf s)
unfolding send_now
send_now-Accounts ws buf s none_pending =
    let p = send_loop ws buf in
    (
      ap (λ l. (s.sent ++ p.took) ++ l) (concat_left p.left)
          ∙ append_assoc s.sent p.took p.left
          ∙ ap (λ l. s.sent ++ l) (took-left ws buf)
          ∙ ap (λ l. l ++ buf) (sym (append-nil s.sent))
          ∙ ap (λ l. (s.sent ++ concat l) ++ buf) (sym none_pending),
      length-append s.sent p.took,
    )

queue_up-Accounts : (buf : List ℕ) (s : Socket) → Accounts s buf (queue_up buf s)
unfolding queue_up
queue_up-Accounts buf s = (
  ap (λ l. s.sent ++ l)
        (concat-append s.pending (buf ∷ []) ∙ ap (λ l. concat s.pending ++ l) (append-nil buf))
      ∙ sym (append_assoc s.sent (concat s.pending) buf),
  omega arith,
)

-- Whatever `::write` returns: a `write` loses no byte and changes no order, and its result is the
-- number of bytes that were taken at once.
pub write_lem :
    (ws : List Wrote) (buf : List ℕ) (s : Socket)
    → let (n, es, s') = write ws buf s in
      (s'.sent ++ concat s'.pending ≡ (s.sent ++ concat s.pending) ++ buf)
      × (length s'.sent ≡ length s.sent + n)
unfolding write
write_lem ws [] s = (sym (append-nil (s.sent ++ concat s.pending)), omega arith)
write_lem ws (b ∷ bs) s = elim (Bool-cases (is_nil s.pending)) [
  | inl none_pending ↦
      simp none_pending (send_now-Accounts ws (b ∷ bs) s (eq_of_is_nil s.pending none_pending))
  | inr some_pending ↦ simp some_pending (queue_up-Accounts (b ∷ bs) s)
]
