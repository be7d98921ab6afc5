-- ===== src/Channel/Spec/Fifo.antt =====
-- First in, first out, for the histories of engin/channel.hpp: what was handed to readers, in order,
-- and what is still in the ring make up what the accepted writes wrote.
use chroutine.Prelude.{
  ℕ, ◌≡◌, sym, ap, ◌∙◌, ◌⊎◌, inl, inr, Bool, true, List, [], ◌∷◌, ◌++◌, arith, append_assoc,
  append-nil, subst,
}
use chroutine.Prelude.Int.{ℤ}
use chroutine.Channel
use chroutine.Channel.Ring.{contents-none}
use chroutine.Channel.{
  Channel, create, Caller, WriteContext, ReadContext, Call, writes, reads, resets, Effect, store,
  awake, Reply, returns, holds, spins,
}
use chroutine.Channel.Valid.{IsValid, step-IsValid, create-IsValid}
use chroutine.Channel.Spec
use chroutine.Channel.Spec.{Queue, view}
use chroutine.Channel.Spec.Refine.{step_refines}

module _ {T : Type 0} where
  -- What a write that returned true has handed to the channel. A write that waits has not yet.
  abbrev pub accepted : Call T → Reply → List T
  accepted (writes self x try_) (returns true) = x ∷ []
  accepted _ _ = []

  abbrev pub delivered : List (Effect T) → List T
  delivered [] = []
  delivered (store p x ∷ es) = x ∷ delivered es
  delivered (awake w ∷ es) = delivered es

  -- The same over a history.
  pub sent : Channel T → List (Call T) → List T
  sent c [] = []
  sent c (call ∷ calls) =
      let o = Channel.step c call in accepted call o.reply ++ sent o.channel calls

  pub received : Channel T → List (Call T) → List T
  received c [] = []
  received c (call ∷ calls) =
      let o = Channel.step c call in delivered o.effects ++ received o.channel calls

  abbrev pub NoReset : List (Call T) → Type 0
  NoReset [] = Unit
  NoReset (writes _ _ _ ∷ calls) = NoReset calls
  NoReset (reads _ _ _ ∷ calls) = NoReset calls
  NoReset (resets ∷ calls) = ⊥

  abbrev IsIdle : Queue T → Type 0
  IsIdle q = (q.items ≡ []) ⊎ (q.readers ≡ [])

  write-accounts :
      (self : Caller) (x : T) (try_ : Bool) (q : Queue T)
      → IsIdle q
      → let r = Spec.write self x try_ q in
        delivered r.effects ++ r.queue.items ≡ q.items ++ accepted (writes self x try_) r.reply
  unfolding Spec.write
  write-accounts self x try_ q idle = ground (arith, append-nil q.items)

  read-accounts :
      (self : Caller) (p : ℕ) (try_ : Bool) (q : Queue T)
      → let r = Spec.read self p try_ q in
        delivered r.effects ++ r.queue.items ≡ q.items ++ accepted (reads self p try_) r.reply
  unfolding Spec.read
  read-accounts self p try_ q = ground (arith, append-nil q.items)

  spec_step-accounts :
      (call : Call T) (q : Queue T)
      → IsIdle q
      → NoReset (call ∷ [])
      → let r = Spec.step q call in
        delivered r.effects ++ r.queue.items ≡ q.items ++ accepted call r.reply
  unfolding Spec.step
  spec_step-accounts (writes self x try_) q idle n = write-accounts self x try_ q idle
  spec_step-accounts (reads self p try_) q idle n = read-accounts self p try_ q
  spec_step-accounts resets q idle n = absurd n

  view-IsIdle : {c : Channel T} → IsValid c → IsIdle (view c)
  view-IsIdle {c} v = elim v.readers_idle [
    | inl none_left ↦ inl (contents-none c.data_array c.max_size c.r_index c.unread none_left)
    | inr no_reader ↦ inr no_reader
  ]

  step-accounts :
      (call : Call T) {c : Channel T}
      → IsValid c
      → NoReset (call ∷ [])
      → let o = Channel.step c call in
        delivered o.effects ++ (view o.channel).items ≡ (view c).items ++ accepted call o.reply
  step-accounts call {c} v n =
      subst (λ r. delivered r.effects ++ r.queue.items ≡ (view c).items ++ accepted call r.reply)
        (sym (step_refines call v)) (spec_step-accounts call (view c) (view-IsIdle v) n)

  NoReset-head :
      (call : Call T) (calls : List (Call T))
      → NoReset (call ∷ calls)
      → NoReset (call ∷ []) × NoReset calls
  NoReset-head (writes self x try_) calls n = (tt, n)
  NoReset-head (reads self p try_) calls n = (tt, n)
  NoReset-head resets calls n = absurd n

  -- From a valid channel on, without a reset: what has been delivered, then what is still in the
  -- ring, is what was in the ring and then what was accepted, in the same order.
  pub run-accounts :
      (calls : List (Call T)) {c : Channel T}
      → IsValid c
      → NoReset calls
      → received c calls ++ (view (Channel.after c calls)).items ≡ (view c).items ++ sent c calls
  unfolding received sent Channel.after
  run-accounts [] {c} v n = sym (append-nil (view c).items)
  run-accounts (call ∷ calls) {c} v n =
      let o = Channel.step c call in
      let parts = NoReset-head call calls n in
      let rest = run-accounts calls (step-IsValid call v) parts.1 in
      let d = delivered o.effects in
      append_assoc d (received o.channel calls) (view (Channel.after o.channel calls)).items
      ∙ ap (λ l. d ++ l) rest
      ∙ sym (append_assoc d (view o.channel).items (sent o.channel calls))
      ∙ ap (λ l. l ++ sent o.channel calls) (step-accounts call v parts.0)
      ∙ append_assoc (view c).items (accepted call o.reply) (sent o.channel calls)

  -- Where no call is a reset, a new channel delivers the accepted elements, all of them but those still
  -- in the ring, each once and in the order of the writes.
  pub create-accounts :
      (max_size : ℤ) (fresh_array : ℕ → T) (calls : List (Call T))
      → NoReset calls
      → let c = create max_size fresh_array in
        received c calls ++ (view (Channel.after c calls)).items ≡ sent c calls
  unfolding create
  create-accounts n a calls r = run-accounts calls (create-IsValid n a) r
