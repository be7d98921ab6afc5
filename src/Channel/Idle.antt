-- ===== src/Channel/Idle.antt =====
-- A channel of engin/channel.hpp for which nobody waits: its reads and writes are those of a list.
use chroutine.Prelude.{
  ℕ, ◌+◌, ◌-◌, ◌%◌, ◌<◌, ◌≡◌, refl, Bool, true, false, List, [], ◌∷◌, ◌++◌, length, ltb, subst,
  arith,
}
use chroutine.Channel.{
  Caller, Channel, Outcome, store, done, advance, update, write, put, read, refill, readable,
  writable,
}
use chroutine.Channel.Ring.{contents, contents-take, contents-put_at, length-contents}
use chroutine.Channel.Valid.{IsValid, write-IsValid, unlocked_advance-IsValid}

-- The elements of a channel, the oldest first.
abbrev pub items : {T : Type 0} → Channel T → List T
items c = contents c.data_array c.max_size c.r_index c.unread

module _ {T : Type 0} where
  pub record IsIdle (c : Channel T) : Type 0 where
    pub valid : IsValid c
    pub open_ : c.locked ≡ false
    pub no_writer : c.waiting_write_que ≡ []
    pub no_reader : c.waiting_read_que ≡ []

  pub length-items : (c : Channel T) → length (items c) ≡ c.unread
  length-items c = length-contents c.data_array c.max_size c.r_index c.unread

  -- The channel behind a write, and behind a read.
  abbrev pub added : T → Channel T → Channel T
  added v c = record c {
    data_array = update c.data_array c.w_index v;
    unread = c.unread + 1;
    w_index = (c.w_index + 1) % c.max_size;
    locked = false;
  }

  abbrev pub one_less : Channel T → Channel T
  one_less c = record (advance c) { locked = false }

  module _ (self : Caller) (try_ : Bool) (c : Channel T) (idle : IsIdle c) where
    pub write-room :
        (v : T) → c.unread < c.max_size → write self v try_ c ≡ done true (added v c) []
    unfolding write put writable
    write-room v room =
        let not_full : ltb (c.max_size - c.unread) 1 ≡ false = ground arith in
        simp (idle.open_, not_full, idle.no_reader) refl

    pub items-added : (v : T) → c.unread < c.max_size → items (added v c) ≡ items c ++ v ∷ []
    items-added v room =
        contents-put_at c.data_array c.max_size c.r_index c.unread v idle.valid.r_in room
          idle.valid.w_at

    pub added-IsIdle : (v : T) → c.unread < c.max_size → IsIdle (added v c)
    added-IsIdle v room = record {
      valid =
          subst (λ (o : Outcome T). IsValid o.channel) (write-room v room)
            (write-IsValid self v try_ idle.valid);
      open_ = refl;
      no_writer = idle.no_writer;
      no_reader = idle.no_reader;
    }

    pub read-some :
        (out_ptr : ℕ)
        → 0 < c.unread
        → read self out_ptr try_ c
          ≡ done true (one_less c) (store out_ptr (c.data_array c.r_index) ∷ [])
    unfolding read readable refill
    read-some out_ptr some_there =
        let full : ltb c.unread 1 ≡ false = ground arith in
        simp (idle.open_, full, idle.no_writer) refl

    pub items-one_less : 0 < c.unread → items c ≡ c.data_array c.r_index ∷ items (one_less c)
    items-one_less some_there =
        contents-take c.data_array c.max_size c.r_index c.unread idle.valid.r_in some_there

    pub one_less-IsIdle : 0 < c.unread → IsIdle (one_less c)
    one_less-IsIdle some_there = record {
      valid = unlocked_advance-IsValid idle.valid some_there;
      open_ = refl;
      no_writer = idle.no_writer;
      no_reader = idle.no_reader;
    }
