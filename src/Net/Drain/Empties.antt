-- ===== src/Net/Drain/Empties.antt =====
-- The loop of `select` in net/epoll/raw_tcp_client.cpp and raw_tcp_server.cpp ends, and takes all.
use chroutine.Prelude.{
  ℕ, zero, suc, ◌<◌, ◌≡◌, refl, sym, ap, ◌∙◌, inl, inr, Bool, true, false, Option, some, List, [],
  ◌∷◌, ◌==◌, arith, Bool-cases, ==_iff, if◌then◌else◌,
}
use chroutine.Channel.{Caller, Channel, Outcome, read}
use chroutine.Channel.Idle.{items, one_less}
use chroutine.Channel.Ring.{contents-take, contents-none}
use chroutine.Channel.Valid.{IsValid, unlocked_advance-IsValid}
use chroutine.Channel.Reading.{try_read-empty, try_read-some}
use chroutine.Net.Drain.{taken, first_store, after_read, count_one, drain}

abbrev pub fold : {T S : Type 0} → (T → S → S) → List T → S → S
fold act [] s = s
fold act (x ∷ xs) s = fold act xs (act x s)

module _ {T S : Type 0} (self : Caller) (act : T → S → S) (go : S → Bool) where
  drain-empty :
      (fuel : ℕ) (c : Channel T) (s : S)
      → c.locked ≡ false
      → go s ≡ true
      → c.unread ≡ 0
      → drain self act go (suc fuel) c s ≡ some (0, c, s)
  unfolding drain after_read taken
  drain-empty fuel c s open_ goes none_there =
      ap (λ b. if b then turn (read self 0 true c) else some (0, c, s)) goes
      ∙ ap turn (try_read-empty self 0 c open_ none_there)
    where
      turn : Outcome T → Option (ℕ × Channel T × S)
      turn o = after_read self act go o (λ v. drain self act go fuel o.channel (act v s)) s

  drain-some :
      (fuel : ℕ) (c : Channel T) (s : S)
      → c.locked ≡ false
      → go s ≡ true
      → 0 < c.unread
      → c.waiting_write_que ≡ []
      → drain self act go (suc fuel) c s
        ≡ count_one self act go
            (drain self act go fuel (one_less c) (act (c.data_array c.r_index) s))
  unfolding drain after_read taken first_store
  drain-some fuel c s open_ goes some_there nobody =
      ap (λ b. if b then turn (read self 0 true c) else some (0, c, s)) goes
      ∙ ap turn (try_read-some self 0 c open_ some_there nobody)
    where
      turn : Outcome T → Option (ℕ × Channel T × S)
      turn o = after_read self act go o (λ v. drain self act go fuel o.channel (act v s)) s

  -- With more fuel than elements in an unlocked channel where no writer waits, and a state that goes on:
  -- the loop ends, has done its body for each element, the oldest first, and the channel is empty.
  pub drain_lem :
      (fuel : ℕ) (c : Channel T) (s : S)
      → ((v : T) (t : S) → go t ≡ true → go (act v t) ≡ true)
      → IsValid c
      → c.locked ≡ false
      → c.waiting_write_que ≡ []
      → go s ≡ true
      → c.unread < fuel
      → (c' : Channel T) × (drain self act go fuel c s ≡ some (c.unread, c', fold act (items c) s))
        × (c'.unread ≡ 0)
        × (c'.locked ≡ false)
  unfolding drain count_one
  drain_lem zero c s on v open_ nobody goes h = absurd (omega (arith, h))
  drain_lem (suc fuel) c s on v open_ nobody goes h = elim (Bool-cases (c.unread == 0)) [
    | inl none_there ↦
        let empty = (==_iff c.unread 0).0 none_there in
        (
          c,
          drain-empty fuel c s open_ goes empty
              ∙ ap (λ n. some (n, c, s)) (sym empty)
              ∙ ap (λ l. some (c.unread, c, fold act l s))
                  (sym (contents-none c.data_array c.max_size c.r_index c.unread empty)),
          empty,
          open_,
        )
    | inr some_there ↦
        let (c', e, empty, free) =
          drain_lem fuel (one_less c) (act (c.data_array c.r_index) s) on
            (unlocked_advance-IsValid v (ground arith)) refl nobody
            (on (c.data_array c.r_index) s goes) (ground arith) in
        (
          c',
          drain-some fuel c s open_ goes (ground arith) nobody
              ∙ ap (count_one self act go) e
              ∙ ap
                  (λ n.
                    some (n, c', fold act (items (one_less c)) (act (c.data_array c.r_index) s)))
                  (ground arith)
              ∙ ap (λ l. some (c.unread, c', fold act l s))
                  (sym (
                    contents-take c.data_array c.max_size c.r_index c.unread v.r_in
                      (ground arith))),
          empty,
          free,
        )
  ]
