-- ===== src/Channel.antt =====
-- engin/channel.hpp: `channel_t<T>`, one function for each method, with the guards in the order of
-- the code. The children prove that its ring is a bounded queue and what its callers see.
pub mod Ring
pub mod Spec
pub mod Valid
pub mod Blocking
pub mod Reading
pub mod Idle
mod Tests
use chroutine.Prelude.{
  ℕ, ◌+◌, ◌-◌, ◌%◌, Bool, true, false, List, [], ◌∷◌, ◌++◌, ltb, ◌==◌, if◌then◌else◌,
}
use chroutine.Prelude.Int.{ℤ, positive}

-- The thread and the chroutine that a call is made from.
pub record Caller : Type 0 where
  pub thread_id : ℕ
  pub chroutine_id : ℕ

-- `chroutine_chan_context_t` in the writers' queue, where `out_ptr` is not used.
pub record WriteContext {ℓ} (T : Type ℓ) : Type ℓ where
  pub caller : Caller
  pub in_data : T

-- `chroutine_chan_context_t` in the readers' queue, where `in_data` is not used.
pub record ReadContext : Type 0 where
  pub caller : Caller
  pub out_ptr : ℕ

-- `data_array i` is `m_data_array[i]`; which indices are read and written is a theorem.
-- `locked` is the flag of `m_lock`.
pub record Channel {ℓ} (T : Type ℓ) : Type ℓ where
  pub w_index : ℕ
  pub r_index : ℕ
  pub max_size : ℕ
  pub data_array : ℕ → T
  pub unread : ℕ
  pub waiting_write_que : List (WriteContext T)
  pub waiting_read_que : List ReadContext
  pub locked : Bool

-- What a call does outside the channel, in order.
pub data Effect {ℓ} (T : Type ℓ) : Type ℓ where
  store : ℕ → T → Effect T
  awake : Caller → Effect T

-- How a call ends: with a Boolean, in `HOLD()` (after which it returns true), or in the loop of
-- `m_lock.lock()`.
pub data Reply : Type 0 where
  returns : Bool → Reply
  holds : Reply
  spins : Reply

pub record Outcome {ℓ} (T : Type ℓ) : Type ℓ where
  pub reply : Reply
  pub channel : Channel T
  pub effects : List (Effect T)

-- A history of calls on one channel, each made whole.
pub data Call {ℓ} (T : Type ℓ) : Type ℓ where
  writes : Caller → T → Bool → Call T
  reads : Caller → ℕ → Bool → Call T
  resets : Call T

module _ {ℓ} {T : Type ℓ} where
  -- One array cell written.
  abbrev pub update : (ℕ → T) → ℕ → T → ℕ → T
  update a i v j = if j == i then v else a j

  abbrev pub done : Bool → Channel T → List (Effect T) → Outcome T
  done b c es = record { reply = returns b; channel = c; effects = es }

  -- `create`: the new array holds arbitrary values.
  pub create : ℤ → (ℕ → T) → Channel T
  create max_size fresh_array = record {
    w_index = 0;
    r_index = 0;
    max_size = if positive max_size == 0 then 1 else positive max_size;
    data_array = fresh_array;
    unread = 0;
    waiting_write_que = [];
    waiting_read_que = [];
    locked = false;
  }

  pub writable : Channel T → ℕ
  writable c = c.max_size - c.unread

  unfoldable pub readable : Channel T → ℕ
  readable c = c.unread

  -- A reader that waits gets the data; else it goes into the ring.
  put : List ReadContext → T → Channel T → Outcome T
  put [] value c =
      done true
        (record c {
          data_array = update c.data_array c.w_index value;
          unread = c.unread + 1;
          w_index = (c.w_index + 1) % c.max_size;
          locked = false;
        })
        []
  put (context ∷ others) value c =
      done true (record c { waiting_read_que = others; locked = false })
        (store context.out_ptr value ∷ awake context.caller ∷ [])

  enqueue_writer : Caller → T → Channel T → Outcome T
  enqueue_writer self value c = record {
    reply = holds;
    channel = record c {
      waiting_write_que = c.waiting_write_que ++ record { caller = self; in_data = value } ∷ [];
      locked = false;
    };
    effects = [];
  }

  -- `write(data_ptr, try_)`. On a locked channel the call stays in the loop of `m_lock.lock()`.
  pub write : Caller → T → Bool → Channel T → Outcome T
  unfolding put enqueue_writer writable
  write self value try_ c =
      if c.locked
      then record { reply = spins; channel = c; effects = [] }
      else if ltb (writable c) 1
      then (if try_ then done false c [] else enqueue_writer self value c)
      else put c.waiting_read_que value c

  enqueue_reader : Caller → ℕ → Channel T → Outcome T
  enqueue_reader self out_ptr c = record {
    reply = holds;
    channel = record c {
      waiting_read_que = c.waiting_read_que ++ record { caller = self; out_ptr = out_ptr } ∷ [];
      locked = false;
    };
    effects = [];
  }

  -- What `read` does with a write that it made itself: on its return the writer is woken, leaves
  -- the queue, and the lock is released; a write that does not return leaves `read` there too.
  after_write : Caller → List (WriteContext T) → Outcome T → Outcome T
  after_write writer others o = elim o.reply [
    | returns b ↦
        done true (record o.channel { waiting_write_que = others; locked = false })
          (o.effects ++ awake writer ∷ [])
    | holds ↦ o
    | spins ↦ o
  ]

  -- The end of `read`, with the lock held: `*this << context.in_data` if a writer waits.
  unfoldable pub refill : Caller → List (WriteContext T) → Channel T → Outcome T
  unfolding after_write write
  refill self [] c = done true (record c { locked = false }) []
  refill self (context ∷ others) c =
      after_write context.caller others (write self context.in_data false c)

  abbrev prepend : Effect T → Outcome T → Outcome T
  prepend e o = record o { effects = e ∷ o.effects }

  -- The element at `m_r_index` is taken out, with the lock held.
  abbrev pub advance : Channel T → Channel T
  advance c = record c {
    unread = c.unread - 1;
    r_index = (c.r_index + 1) % c.max_size;
    locked = true;
  }

  -- `read(data_ptr, try_)`, which stores through `out_ptr`.
  unfoldable pub read : Caller → ℕ → Bool → Channel T → Outcome T
  unfolding enqueue_reader refill readable
  read self out_ptr try_ c =
      if c.locked
      then record { reply = spins; channel = c; effects = [] }
      else if ltb (readable c) 1
      then (if try_ then done false c [] else enqueue_reader self out_ptr c)
      else prepend (store out_ptr (c.data_array c.r_index))
          (refill self c.waiting_write_que (advance c))

  -- `reset()`: the queues of waiting chroutines stay as they are.
  pub reset : Channel T → Outcome T
  reset c =
      if c.locked
      then record { reply = spins; channel = c; effects = [] }
      else done true (record c { w_index = 0; r_index = 0; unread = 0 }) []

  pub step : Channel T → Call T → Outcome T
  unfolding write read reset
  step c (writes self value try_) = write self value try_ c
  step c (reads self out_ptr try_) = read self out_ptr try_ c
  step c resets = reset c

  -- The channel after a history, and what its calls replied and did, one after the other.
  pub after : Channel T → List (Call T) → Channel T
  after c [] = c
  after c (call ∷ calls) = after (step c call).channel calls

  pub trace : Channel T → List (Call T) → List (Reply × List (Effect T))
  trace c [] = []
  trace c (call ∷ calls) = let o = step c call in (o.reply, o.effects) ∷ trace o.channel calls
