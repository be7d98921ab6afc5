-- ===== src/Channel/Reading.antt =====
-- What `read` of engin/channel.hpp does when it may not block, and when it waits for one write.
use chroutine.Prelude.{ℕ, ◌<◌, ◌≡◌, refl, true, false, [], ◌∷◌, arith, ltb, ◌-◌}
use chroutine.Channel.{
  Caller, Channel, store, awake, done, advance, write, read, reset, put, refill, readable, writable,
  enqueue_reader,
}

module _ {ℓ} {T : Type ℓ} (self : Caller) (out_ptr : ℕ) (c : Channel T) where
  pub try_read-empty : c.locked ≡ false → c.unread ≡ 0 → read self out_ptr true c ≡ done false c []
  unfolding read readable
  try_read-empty open_ none_there = simp (open_, none_there) refl

  pub try_read-some :
      c.locked ≡ false
      → 0 < c.unread
      → c.waiting_write_que ≡ []
      → read self out_ptr true c
        ≡ done true
            (record (advance c) { locked = false })
            (store out_ptr (c.data_array c.r_index) ∷ [])
  unfolding read readable refill
  try_read-some open_ some_there nobody =
      let full : ltb c.unread 1 ≡ false = ground arith in simp (open_, full, nobody) refl

  abbrev pub cleared : Channel T
  cleared = record c { w_index = 0; r_index = 0; unread = 0; waiting_read_que = []; locked = false }

  -- On a channel that is reset and then read, the next write goes straight to the reader.
  pub reset-read-write :
      (other : Caller) (v : T)
      → c.locked ≡ false
      → c.waiting_read_que ≡ []
      → 0 < c.max_size
      → write other v false (read self out_ptr false (reset c).channel).channel
        ≡ done true cleared (store out_ptr v ∷ awake self ∷ [])
  unfolding write put writable read reset enqueue_reader readable
  reset-read-write other v open_ nobody room =
      let not_full : ltb (c.max_size - 0) 1 ≡ false = ground arith in
      simp (open_, nobody, not_full) refl
