-- ===== src/Channel/Valid.antt =====
-- The invariant of engin/channel.hpp: the indices stay inside the array and agree with `m_unread`,
-- and a chroutine waits to read only while nothing is there to read.
use chroutine.Prelude.{
  ℕ, ◌+◌, ◌%◌, ◌≤◌, ◌<◌, ◌≡◌, refl, sym, ap, ◌⊎◌, inl, inr, Bool, true, false, List, [], ◌∷◌, arith,
}
use chroutine.Prelude.Int.{ℤ}
use native.Mathlib.Nat.{mod-add-mod}
use chroutine.Channel.{
  WriteContext, spins, Channel, Caller, ReadContext, Call, writes, reads, resets, create, write,
  read, reset, step, put, enqueue_reader, refill, advance,
}
use chroutine.Channel.Ring.{mod_wrap}

pub record IsValid {ℓ} {T : Type ℓ} (c : Channel T) : Type ℓ where
  pub r_in : c.r_index < c.max_size
  pub unread_in : c.unread ≤ c.max_size
  pub w_at : c.w_index ≡ (c.r_index + c.unread) % c.max_size
  pub readers_idle : (c.unread ≡ 0) ⊎ (c.waiting_read_que ≡ [])

module _ {ℓ} {T : Type ℓ} where
  -- A new channel is valid, holds nothing and is unlocked, whatever size was asked for.
  pub create-IsValid : (n : ℤ) (a : ℕ → T) → IsValid (create n a)
  unfolding create
  create-IsValid n a = ground arith

  -- The write index is inside the array.
  pub w_in : {c : Channel T} → IsValid c → c.w_index < c.max_size
  w_in {c} v = ground (arith, mod_wrap (c.r_index + c.unread) c.max_size)

  put-IsValid :
      (rs : List ReadContext) (x : T) {c : Channel T}
      → IsValid c
      → rs ≡ c.waiting_read_que
      → c.unread < c.max_size
      → IsValid (put rs x c).channel
  unfolding put
  put-IsValid [] x {c} v e h = record {
    r_in = v.r_in;
    unread_in = omega arith;
    w_at = rw (v.w_at, mod-add-mod) (ap (λ k. k % c.max_size) (omega arith));
    readers_idle = inr (sym e);
  }
  put-IsValid (r ∷ rs) x {c} v e h = record {
    r_in = v.r_in;
    unread_in = v.unread_in;
    w_at = v.w_at;
    readers_idle = inl (ground arith);
  }

  enqueue_reader-IsValid :
      (self : Caller) (p : ℕ) {c : Channel T}
      → IsValid c
      → c.unread ≡ 0
      → IsValid (enqueue_reader self p c).channel
  unfolding enqueue_reader
  enqueue_reader-IsValid self p v h = record {
    r_in = v.r_in;
    unread_in = v.unread_in;
    w_at = v.w_at;
    readers_idle = inl h;
  }

  pub write-IsValid :
      (self : Caller) (x : T) (try_ : Bool) {c : Channel T}
      → IsValid c
      → IsValid (write self x try_ c).channel
  unfolding write
  write-IsValid self x try_ {c} v = ground (arith, put-IsValid c.waiting_read_que x v refl)

  advance-IsValid : {c : Channel T} → IsValid c → 0 < c.unread → IsValid (advance c)
  advance-IsValid {c} v h = record {
    r_in = ground (arith, mod_wrap (c.r_index + 1) c.max_size);
    unread_in = omega arith;
    w_at = rw (v.w_at, mod-add-mod) (ap (λ k. k % c.max_size) (omega arith));
    readers_idle = ground arith;
  }

  pub unlocked_advance-IsValid :
      {c : Channel T} → IsValid c → 0 < c.unread → IsValid (record (advance c) { locked = false })
  unlocked_advance-IsValid {c} v h =
      let w = advance-IsValid v h in
      record {
        r_in = w.r_in;
        unread_in = w.unread_in;
        w_at = w.w_at;
        readers_idle = w.readers_idle;
      }

  reset-IsValid : {c : Channel T} → IsValid c → IsValid (reset c).channel
  unfolding reset
  reset-IsValid v = ground arith

  -- A read that finds a writer waiting takes its element, writes for it, and stays in that write.
  refill-cons :
      (self : Caller) (w : WriteContext T) (ws : List (WriteContext T)) (c : Channel T)
      → c.locked ≡ true
      → refill self (w ∷ ws) c ≡ record { reply = spins; channel = c; effects = [] }
  unfolding refill
  refill-cons self w ws c h = rw h

  refill-IsValid :
      (self : Caller) (ws : List (WriteContext T)) {c : Channel T}
      → IsValid c
      → c.locked ≡ true
      → IsValid (refill self ws c).channel
  unfolding refill
  refill-IsValid self [] v h = ground arith
  refill-IsValid self (w ∷ ws) {c} v h = rw (refill-cons self w ws c h) v

  take-IsValid :
      (self : Caller) {c : Channel T}
      → IsValid c
      → 0 < c.unread
      → IsValid (refill self c.waiting_write_que (advance c)).channel
  take-IsValid self {c} v h = refill-IsValid self c.waiting_write_que (advance-IsValid v h) refl

  read-IsValid :
      (self : Caller) (p : ℕ) (try_ : Bool) {c : Channel T}
      → IsValid c
      → IsValid (read self p try_ c).channel
  unfolding read
  read-IsValid self p try_ {c} v = ground (arith, take-IsValid self v)

  -- Every call keeps the channel valid: a write, a read, a reset, whether it returns, waits or
  -- stays at the lock.
  pub step-IsValid : (call : Call T) {c : Channel T} → IsValid c → IsValid (step c call).channel
  unfolding step
  step-IsValid (writes self x try_) v = write-IsValid self x try_ v
  step-IsValid (reads self p try_) v = read-IsValid self p try_ v
  step-IsValid resets v = reset-IsValid v
