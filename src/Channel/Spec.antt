-- ===== src/Channel/Spec.antt =====
-- What engin/channel.hpp promises: a queue of at most `cap` elements, with the chroutines that wait
-- at either end and the lock. No ring, no indices.
pub mod Refine
pub mod Fifo
use chroutine.Prelude.{ℕ, Bool, true, false, List, [], ◌∷◌, ◌++◌, length, leb, if◌then◌else◌}
use chroutine.Channel.{
  Caller, WriteContext, ReadContext, Effect, store, awake, Reply, returns, holds, spins, Channel,
  Outcome, Call, writes, reads, resets,
}
use chroutine.Channel.Ring.{contents}

pub record Queue {ℓ} (T : Type ℓ) : Type ℓ where
  pub cap : ℕ
  pub items : List T
  pub writers : List (WriteContext T)
  pub readers : List ReadContext
  pub locked : Bool

pub record Result {ℓ} (T : Type ℓ) : Type ℓ where
  pub reply : Reply
  pub queue : Queue T
  pub effects : List (Effect T)

module _ {ℓ} {T : Type ℓ} where
  abbrev pub view : Channel T → Queue T
  view c = record {
    cap = c.max_size;
    items = contents c.data_array c.max_size c.r_index c.unread;
    writers = c.waiting_write_que;
    readers = c.waiting_read_que;
    locked = c.locked;
  }

  abbrev pub view_outcome : Outcome T → Result T
  view_outcome o = record { reply = o.reply; queue = view o.channel; effects = o.effects }

  abbrev result : Reply → Queue T → List (Effect T) → Result T
  result r q es = record { reply = r; queue = q; effects = es }

  put : List ReadContext → T → Queue T → Result T
  put [] x q = result (returns true) (record q { items = q.items ++ x ∷ [] }) []
  put (context ∷ others) x q =
      result (returns true) (record q { readers = others })
        (store context.out_ptr x ∷ awake context.caller ∷ [])

  -- A write into a full queue is refused or waits; else the longest waiting reader gets the
  -- element, or it is appended.
  pub write : Caller → T → Bool → Queue T → Result T
  unfolding put
  write self x try_ q =
      if q.locked
      then result spins q []
      else if leb q.cap (length q.items)
      then (if try_
          then result (returns false) q []
          else result holds
              (record q { writers = q.writers ++ record { caller = self; in_data = x } ∷ [] }) [])
      else put q.readers x q

  -- With a writer waiting the lock is never released.
  finish : List (WriteContext T) → Queue T → List (Effect T) → Result T
  finish [] q es = result (returns true) q es
  finish (w ∷ others) q es = result spins (record q { locked = true }) es

  take_front : List T → Caller → ℕ → Bool → Queue T → Result T
  unfolding finish
  take_front [] self out_ptr try_ q =
      if try_
      then result (returns false) q []
      else result holds
          (record q { readers = q.readers ++ record { caller = self; out_ptr = out_ptr } ∷ [] }) []
  take_front (x ∷ rest) self out_ptr try_ q =
      finish q.writers (record q { items = rest }) (store out_ptr x ∷ [])

  -- A read of an empty queue is refused or waits; else it takes the oldest element.
  pub read : Caller → ℕ → Bool → Queue T → Result T
  unfolding take_front
  read self out_ptr try_ q =
      if q.locked then result spins q [] else take_front q.items self out_ptr try_ q

  pub reset : Queue T → Result T
  reset q =
      if q.locked then result spins q [] else result (returns true) (record q { items = [] }) []

  pub step : Queue T → Call T → Result T
  unfolding write read reset
  step q (writes self x try_) = write self x try_ q
  step q (reads self out_ptr try_) = read self out_ptr try_ q
  step q resets = reset q

  pub after : Queue T → List (Call T) → Queue T
  after q [] = q
  after q (call ∷ calls) = after (step q call).queue calls

  pub trace : Queue T → List (Call T) → List (Reply × List (Effect T))
  trace q [] = []
  trace q (call ∷ calls) = let r = step q call in (r.reply, r.effects) ∷ trace r.queue calls
