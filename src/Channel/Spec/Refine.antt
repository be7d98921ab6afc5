-- ===== src/Channel/Spec/Refine.antt =====
-- A valid channel behaves as the bounded queue of Channel/Spec.
use chroutine.Prelude.{
  ℕ, ◌+◌, ◌-◌, ◌%◌, ◌<◌, ◌≡◌, refl, sym, ap, ap₂, Bool, true, false, List, [], ◌∷◌, arith,
}
use chroutine.Channel
use chroutine.Channel.{
  Channel, Caller, WriteContext, ReadContext, Call, writes, reads, resets, Outcome, Effect, store,
  awake, Reply, returns, spins, put, refill, advance, prepend,
}
use chroutine.Channel.Ring.{
  contents, length-contents, contents-put_at, contents-take, contents-none,
}
use chroutine.Channel.Valid.{IsValid, step-IsValid}
use chroutine.Channel.Spec
use chroutine.Channel.Spec.{Queue, Result, view, view_outcome}

module _ {T : Type 0} where
  -- After a put into a ring with room, the queue has the element at its end or a reader less.
  put_refines :
      (rs : List ReadContext) (x : T) {c : Channel T}
      → IsValid c
      → c.unread < c.max_size
      → c.locked ≡ false
      → view_outcome (put rs x c) ≡ Spec.put rs x (view c)
  unfolding put Spec.put
  put_refines [] x {c} v h l =
      ap₂
        (λ xs b. record {
          reply = returns true;
          queue = record (view c) { items = xs; locked = b };
          effects = [];
        })
        (contents-put_at c.data_array c.max_size c.r_index c.unread x v.r_in h v.w_at) (sym l)
  put_refines (r ∷ rs) x {c} v h l =
      ap
        (λ b. record {
          reply = returns true;
          queue = record (view c) { readers = rs; locked = b };
          effects = store r.out_ptr x ∷ awake r.caller ∷ [];
        })
        (sym l)

  write_refines :
      (self : Caller) (x : T) (try_ : Bool) {c : Channel T}
      → IsValid c
      → view_outcome (Channel.write self x try_ c) ≡ Spec.write self x try_ (view c)
  unfolding Channel.write Spec.write
  write_refines self x try_ {c} v = ground (
    arith,
    put_refines c.waiting_read_que x v,
    length-contents c.data_array c.max_size c.r_index c.unread,
  )

  take_refines :
      (self : Caller) (e : Effect T) (ws : List (WriteContext T)) (c : Channel T)
      → c.locked ≡ false
      → view_outcome (prepend e (refill self ws (advance c)))
        ≡ Spec.finish ws
            (record (view c) {
              items =
                  contents c.data_array c.max_size ((c.r_index + 1) % c.max_size) (c.unread - 1);
            })
            (e ∷ [])
  unfolding refill Spec.finish
  take_refines self e [] c l =
      ap
        (λ b. record {
          reply = returns true;
          queue = record (view (advance c)) { locked = b };
          effects = e ∷ [];
        })
        (sym l)
  take_refines self e (w ∷ ws) c l = refl

  read_refines :
      (self : Caller) (p : ℕ) (try_ : Bool) {c : Channel T}
      → IsValid c
      → view_outcome (Channel.read self p try_ c) ≡ Spec.read self p try_ (view c)
  unfolding Channel.read Spec.read
  read_refines self p try_ {c} v = ground (
    arith,
    take_refines self (store p (c.data_array c.r_index)) c.waiting_write_que c,
    contents-take c.data_array c.max_size c.r_index c.unread,
    contents-none c.data_array c.max_size c.r_index c.unread,
  )

  reset_refines : (c : Channel T) → view_outcome (Channel.reset c) ≡ Spec.reset (view c)
  unfolding Channel.reset Spec.reset
  reset_refines c = ground arith

  -- Each call on a valid channel replies, stores and wakes as the queue does, and leaves the
  -- channel holding the queue's next state.
  pub step_refines :
      (call : Call T) {c : Channel T}
      → IsValid c
      → view_outcome (Channel.step c call) ≡ Spec.step (view c) call
  unfolding Channel.step Spec.step
  step_refines (writes self x try_) v = write_refines self x try_ v
  step_refines (reads self p try_) v = read_refines self p try_ v
  step_refines resets {c} v = reset_refines c

  -- No history of calls tells a valid channel from its queue, and they stay in step.
  pub run_refines :
      (calls : List (Call T)) {c : Channel T}
      → IsValid c
      → (Channel.trace c calls ≡ Spec.trace (view c) calls)
        × (view (Channel.after c calls) ≡ Spec.after (view c) calls)
  unfolding Channel.trace Spec.trace Channel.after Spec.after
  run_refines [] v = (refl, refl)
  run_refines (call ∷ calls) {c} v =
      let rest = run_refines calls (step-IsValid call v) in
      rw (← step_refines call v)
        (ap (λ t. ((Channel.step c call).reply, (Channel.step c call).effects) ∷ t) rest.0, rest.1)
