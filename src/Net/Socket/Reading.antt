-- ===== src/Net/Socket/Reading.antt =====
-- What `on_read` of net/epoll/socket.cpp makes of one return of `::read`.
use chroutine.Prelude.{
  ℕ, zero, suc, ◌≤◌, ◌≡◌, refl, ap, Bool, true, false, not, ◌&&◌, leb, List, [], ◌∷◌, length, take,
  is_nil, arith,
}
use chroutine.Net.Socket.{Socket, bytes, ended, new_data, count, on_read}

-- What one `::read` may return with data: some bytes, at most the 1024 of the buffer.
abbrev pub is_chunk : List ℕ → Bool
is_chunk bs = not (is_nil bs) && leb (length bs) 1024

take-all : (n : ℕ) (bs : List ℕ) → length bs ≤ n → take n bs ≡ bs
take-all zero [] h = refl
take-all zero (b ∷ bs) h = absurd (omega (arith, h))
take-all (suc n) [] h = refl
take-all (suc n) (b ∷ bs) h = ap (λ l. b ∷ l) (take-all n bs (omega arith))

pub on_read-chunk :
    (b : ℕ) (bs : List ℕ) (s : Socket)
    → s.is_listener ≡ false
    → is_chunk (b ∷ bs) ≡ true
    → on_read (bytes (b ∷ bs)) s ≡ (count (length (b ∷ bs)), new_data (b ∷ bs) ∷ [])
unfolding on_read
on_read-chunk b bs s plain chunk =
    simp plain
      (ap (λ l. (count (length l), new_data l ∷ [])) (take-all 1024 (b ∷ bs) (ground arith)))

pub on_read-ended : (s : Socket) → s.is_listener ≡ false → on_read ended s ≡ (count 0, [])
unfolding on_read
on_read-ended s plain = simp plain refl
