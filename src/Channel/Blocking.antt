-- ===== src/Channel/Blocking.antt =====
-- When a call of engin/channel.hpp comes back at once, when it waits, and when it never returns.
use chroutine.Prelude.{
  ℕ, ◌<◌, ◌≡◌, refl, ap, ap₂, sym, subst, ◌∙◌, ◌++◌, append-nil, append_assoc, ◌⊎◌, inl, inr, ◌-◌,
  Bool, true, false, List, [], ◌∷◌, arith, Bool-cases, ltb,
}
use chroutine.Channel.{
  Channel, Caller, WriteContext, Call, writes, reads, resets, Effect, store, Reply, returns, holds,
  spins, write, read, reset, step, after, trace, refill, advance, put, prepend, ReadContext,
  Outcome, enqueue_reader, readable,
}
use chroutine.Channel.Valid.{IsValid}

-- How the readers of a list wait, by the callers and the pointers that they store through.
abbrev pub contexts : List (Caller × ℕ) → List ReadContext
contexts [] = []
contexts ((self, p) ∷ rs) = record { caller = self; out_ptr = p } ∷ contexts rs

module _ {T : Type 0} where
  -- `write` with `try_` on an unlocked channel never waits. On a full ring it returns false and
  -- nothing has changed; else it returns true, and the channel is unlocked again.
  pub try_write_lem :
      (self : Caller) (x : T) {c : Channel T}
      → IsValid c
      → c.locked ≡ false
      → let o = write self x true c in
        ((c.unread ≡ c.max_size) × (o.reply ≡ returns false) × (o.channel ≡ c) × (o.effects ≡ []))
        ⊎ ((c.unread < c.max_size) × (o.reply ≡ returns true) × (o.channel.locked ≡ false))
  unfolding write put
  try_write_lem self x {c} v l = elim (Bool-cases (ltb (c.max_size - c.unread) 1)) [
    | inl full ↦ inl (ground arith, ground arith, rw (l, full), ground arith)
    | inr room ↦ inr (ground arith, ground arith, ground arith)
  ]

  -- On a locked channel every call stays in the loop of the lock and changes nothing.
  locked-step :
      (call : Call T) (c : Channel T)
      → c.locked ≡ true
      → step c call ≡ record { reply = spins; channel = c; effects = [] }
  unfolding step write read reset
  locked-step (writes self x try_) c l = rw l
  locked-step (reads self p try_) c l = rw l
  locked-step resets c l = rw l

  -- Every call of the history stays at the lock.
  abbrev pub AllSpin : List (Reply × List (Effect T)) → Type 0
  AllSpin [] = Unit
  AllSpin ((r, es) ∷ rest) = (r ≡ spins) × (es ≡ []) × AllSpin rest

  locked-run :
      (calls : List (Call T)) (c : Channel T)
      → c.locked ≡ true
      → (after c calls ≡ c) × AllSpin (trace c calls)
  unfolding after trace
  locked-run [] c l = (refl, tt)
  locked-run (call ∷ calls) c l =
      let stays = locked-step call c l in
      let rest = locked-run calls c l in rw stays (rest.0, (refl, refl, rest.1))

  read-stuck :
      (self : Caller) (p : ℕ) (try_ : Bool) (w : WriteContext T) (ws : List (WriteContext T))
      (c : Channel T)
      → c.locked ≡ false
      → 0 < c.unread
      → c.waiting_write_que ≡ w ∷ ws
      → read self p try_ c ≡ record {
        reply = spins;
        channel = advance c;
        effects = store p (c.data_array c.r_index) ∷ [];
      }
  unfolding read refill
  read-stuck self p try_ w ws c l h e =
      let some_left : ltb c.unread 1 ≡ false = ground arith in
      rw (l, some_left)
        (ap (λ q. prepend (store p (c.data_array c.r_index)) (refill self q (advance c))) e)

  -- A read that takes an element while a writer waits never returns: it stores the element, then
  -- its own write waits for the lock that it holds. No later call on the channel returns either.
  pub read-waiting_writer :
      (self : Caller) (p : ℕ) (try_ : Bool) (w : WriteContext T) (ws : List (WriteContext T))
      (c : Channel T) (calls : List (Call T))
      → c.locked ≡ false
      → 0 < c.unread
      → c.waiting_write_que ≡ w ∷ ws
      → let o = read self p try_ c in
        (o.reply ≡ spins)
        × (o.effects ≡ store p (c.data_array c.r_index) ∷ [])
        × (after o.channel calls ≡ o.channel)
        × AllSpin (trace o.channel calls)
  read-waiting_writer self p try_ w ws c calls l h e =
      let later = locked-run calls (advance c) refl in
      rw (read-stuck self p try_ w ws c l h e) (refl, refl, later.0, later.1)

  -- Their reads without `try_`.
  abbrev pub reads_by : List (Caller × ℕ) → List (Call T)
  reads_by [] = []
  reads_by ((self, p) ∷ rs) = reads self p false ∷ reads_by rs

  -- Every call of the history waits in `HOLD()`.
  abbrev pub AllHold : List (Reply × List (Effect T)) → Type 0
  AllHold [] = Unit
  AllHold ((r, es) ∷ rest) = (r ≡ holds) × (es ≡ []) × AllHold rest

  read-empty :
      (self : Caller) (p : ℕ) (c : Channel T)
      → c.locked ≡ false
      → c.unread ≡ 0
      → read self p false c ≡ record {
        reply = holds;
        channel = record c {
          waiting_read_que = c.waiting_read_que ++ record { caller = self; out_ptr = p } ∷ [];
          locked = false;
        };
        effects = [];
      }
  unfolding read enqueue_reader readable
  read-empty self p c l e = rw (l, e) refl

  reads_by-empty :
      (rs : List (Caller × ℕ)) (c : Channel T)
      → c.locked ≡ false
      → c.unread ≡ 0
      → (after c (reads_by rs)
          ≡ record c { waiting_read_que = c.waiting_read_que ++ contexts rs; locked = false })
        × AllHold (trace c (reads_by rs))
  unfolding after trace step
  reads_by-empty [] c l e = (
    ap₂ (λ q b. record c { waiting_read_que = q; locked = b }) (sym (append-nil c.waiting_read_que))
        l,
    tt,
  )
  reads_by-empty ((self, p) ∷ rs) c l e =
      let context : ReadContext = record { caller = self; out_ptr = p } in
      let c' = record c { waiting_read_que = c.waiting_read_que ++ context ∷ []; locked = false } in
      let rest = reads_by-empty rs c' refl e in
      (
        ap (λ (o : Outcome T). after o.channel (reads_by rs)) (read-empty self p c l e)
            ∙ rest.0
            ∙ ap (λ q. record c { waiting_read_que = q; locked = false })
                (append_assoc c.waiting_read_que (context ∷ []) (contexts rs)),
        subst (λ (o : Outcome T). AllHold ((o.reply, o.effects) ∷ trace o.channel (reads_by rs)))
            (sym (read-empty self p c l e)) (refl, refl, rest.1),
      )

  -- A `reset` of an unlocked channel empties the ring and keeps everybody who waits, the writers too. The
  -- reads without `try_` that follow, however many, then all wait, and wake nobody: behind the readers that
  -- waited before them, while the writers, with their data, wait on.
  pub reset-waiting_writer :
      (rs : List (Caller × ℕ)) (c : Channel T)
      → c.locked ≡ false
      → let o = reset c in
        (o.reply ≡ returns true)
        × AllHold (trace o.channel (reads_by rs))
        × (after o.channel (reads_by rs) ≡ record c {
          w_index = 0;
          r_index = 0;
          unread = 0;
          waiting_read_que = c.waiting_read_que ++ contexts rs;
          locked = false;
        })
  unfolding reset
  reset-waiting_writer rs c l =
      let emptied = record c { w_index = 0; r_index = 0; unread = 0 } in
      let rest = reads_by-empty rs (record emptied { locked = false }) refl refl in
      rw l (refl, rest.1, rest.0)
