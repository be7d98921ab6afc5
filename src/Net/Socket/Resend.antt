-- ===== src/Net/Socket/Resend.antt =====
-- `on_write` of net/epoll/socket.cpp: what it does with the blocks that `write` left pending.
use chroutine.Prelude.{
  ℕ, zero, suc, ◌<◌, ◌≡◌, refl, sym, ap, ◌∙◌, ◌⊎◌, inl, inr, true, false, List, [], ◌∷◌, ◌++◌,
  length, take, drop, is_nil, concat, append_assoc, append-nil, arith, Bool-cases,
}
use chroutine.Net.Socket.{Wrote, taken, refused, Socket, send_loop, flush, on_write}
use chroutine.Net.Socket.Send.{took-left, eq_of_is_nil}

-- The loop either writes out every block, or stops in one: what `::write` took of that block is out,
-- and the block is pending again from its first byte on.
flush_lem :
    (ws : List Wrote) (pending : List (List ℕ))
    → let f = flush ws pending in
      ((f.aborted ≡ false) × (f.pending ≡ []) × (f.took ≡ concat pending))
      ⊎ ((whole : List (List ℕ)) × (part : List ℕ) × (left : List ℕ) × (rest : List (List ℕ))
          × (f.aborted ≡ true)
          × (pending ≡ whole ++ (part ++ left) ∷ rest)
          × (is_nil left ≡ false)
          × (f.took ≡ concat whole ++ part)
          × (f.pending ≡ (part ++ left) ∷ rest))
unfolding flush
flush_lem ws [] = inl (refl, refl, refl)
flush_lem ws (b ∷ rest) = elim (Bool-cases (is_nil (send_loop ws b).left)) [
  | inl finished ↦
      let p = send_loop ws b in
      let all_taken : p.took ≡ b =
        sym (append-nil p.took)
        ∙ ap (λ l. p.took ++ l) (sym (eq_of_is_nil p.left finished))
        ∙ took-left ws b in
      elim (flush_lem p.returns rest) [
        | inl (a, q, t) ↦
            simp finished (
              inl (a, q, ap (λ l. l ++ (flush p.returns rest).took) all_taken ∙ ap (λ l. b ++ l) t))
        | inr (whole, part, left, more, a, split, some_left, t, q) ↦ simp finished (
            inr (
              b ∷ whole,
              part,
              left,
              more,
              a,
              ap (λ l. b ∷ l) split,
              some_left,
              ap (λ l. l ++ (flush p.returns rest).took) all_taken
                  ∙ ap (λ l. b ++ l) t
                  ∙ sym (append_assoc b (concat whole) part),
              q,
            ))
      ]
  | inr unfinished ↦
      let p = send_loop ws b in
      simp unfinished (
        inr (
          [],
          p.took,
          p.left,
          rest,
          refl,
          ap (λ l. l ∷ rest) (sym (took-left ws b)),
          unfinished,
          refl,
          ap (λ l. l ∷ rest) (sym (took-left ws b)),
        ))
]

-- When `::write` can take no more: `on_write` either has written out every pending byte, in order, or
-- it has stopped in a block: the bytes before it are out and so is a part of it, yet it stays pending
-- from its first byte on.
pub on_write_lem :
    (ws : List Wrote) (s : Socket)
    → let s' = (on_write ws s).2 in
      ((s'.pending ≡ []) × (s'.sent ≡ s.sent ++ concat s.pending))
      ⊎ ((whole : List (List ℕ)) × (part : List ℕ) × (left : List ℕ) × (rest : List (List ℕ))
          × (s.pending ≡ whole ++ (part ++ left) ∷ rest)
          × (is_nil left ≡ false)
          × (s'.sent ≡ s.sent ++ (concat whole ++ part))
          × (s'.pending ≡ (part ++ left) ∷ rest))
unfolding on_write
on_write_lem ws s = elim (flush_lem ws s.pending) [
  | inl (_, q, t) ↦ inl (q, ap (λ l. s.sent ++ l) t)
  | inr (whole, part, left, rest, _, split, some_left, t, q) ↦
      inr (whole, part, left, rest, split, some_left, ap (λ l. s.sent ++ l) t, q)
]

refused-left :
    (l : List ℕ)
    → ((send_loop (refused ∷ []) l).took ≡ []) × ((send_loop (refused ∷ []) l).left ≡ l)
unfolding send_loop
refused-left [] = (refl, refl)
refused-left (x ∷ xs) = (refl, refl)

drop-length : (l : List ℕ) → drop (length l) l ≡ []
drop-length [] = refl
drop-length (x ∷ xs) = drop-length xs

take-length : (l : List ℕ) → take (length l) l ≡ l
take-length [] = refl
take-length (x ∷ xs) = ap (λ t. x ∷ t) (take-length xs)

is_nil-drop : (k : ℕ) (l : List ℕ) → k < length l → is_nil (drop k l) ≡ false
is_nil-drop k [] h = absurd (omega (arith, h))
is_nil-drop zero (x ∷ xs) h = refl
is_nil-drop (suc k) (x ∷ xs) h = is_nil-drop k xs (omega arith)

flush-short :
    (k b : ℕ) (bs : List ℕ)
    → k < length bs
    → flush (taken k ∷ refused ∷ []) ((b ∷ bs) ∷ [])
      ≡ record { took = b ∷ take k bs; pending = (b ∷ bs) ∷ []; aborted = true }
unfolding flush send_loop
flush-short k b bs short =
    let tail = refused-left (drop k bs) in
    simp (tail.0, tail.1, is_nil-drop k bs short, append-nil) refl

send_full :
    (b : ℕ) (bs : List ℕ)
    → send_loop (taken (length bs) ∷ []) (b ∷ bs)
      ≡ record { took = b ∷ bs; left = []; returns = [] }
unfolding send_loop
send_full b bs =
    ap (λ l. record (send_loop [] l) { took = b ∷ (take (length bs) bs ++ (send_loop [] l).took) })
      (drop-length bs)
    ∙ ap (λ l. record { took = b ∷ l; left = []; returns = [] })
        (append-nil (take (length bs) bs) ∙ take-length bs)

flush-full :
    (b : ℕ) (bs : List ℕ)
    → flush (taken (length bs) ∷ []) ((b ∷ bs) ∷ [])
      ≡ record { took = b ∷ bs; pending = []; aborted = false }
unfolding flush
flush-full b bs =
    simp (send_full b bs, append-nil)
      (ap (λ p. record { took = p.took; pending = []; aborted = false }) (send_full b bs))

-- A block of which `::write` takes the first bytes in one `on_write` and can take all in the next:
-- the peer gets those first bytes twice.
pub on_write-resends :
    (k : ℕ) (b : ℕ) (bs : List ℕ) (s : Socket)
    → s.pending ≡ (b ∷ bs) ∷ []
    → k < length bs
    → let s' = (on_write (taken k ∷ refused ∷ []) s).2 in
      let s'' = (on_write (taken (length bs) ∷ []) s').2 in
      (s''.sent ≡ (s.sent ++ b ∷ take k bs) ++ b ∷ bs) × (s''.pending ≡ [])
unfolding on_write
on_write-resends k b bs s one short =
    let first = ap (flush (taken k ∷ refused ∷ [])) one ∙ flush-short k b bs short in
    let second = ap (λ f. flush (taken (length bs) ∷ []) f.pending) first ∙ flush-full b bs in
    (
      ap (λ f. (s.sent ++ f.took) ++ (flush (taken (length bs) ∷ []) f.pending).took) first
          ∙ ap (λ f. (s.sent ++ b ∷ take k bs) ++ f.took) (flush-full b bs),
      ap (λ f. f.pending) second,
    )

pub fd-on_write : (ws : List Wrote) (s : Socket) → (on_write ws s).2.fd ≡ s.fd
unfolding on_write
fd-on_write ws s = refl
