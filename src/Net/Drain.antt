-- ===== src/Net/Drain.antt =====
-- net/epoll/raw_tcp_client.cpp and raw_tcp_server.cpp: the loop that both `select` functions have,
-- `while (... && m_write_chan->read(&data_block, true)) { load++; ... }`.
pub mod Empties
use chroutine.Prelude.{
  ℕ, zero, suc, ◌+◌, Bool, true, false, Option, none, some, List, [], ◌∷◌, if◌then◌else◌,
}
use chroutine.Channel.{
  Caller, Channel, Effect, store, awake, Reply, returns, holds, spins, Outcome, read,
}

-- What a read brought: the element that it stored, none, or it does not return.
pub data Taken {ℓ} (T : Type ℓ) : Type ℓ where
  got : T → Taken T
  nothing : Taken T
  stuck : Taken T

module _ {ℓ} {T : Type ℓ} where
  unfoldable pub first_store : List (Effect T) → Taken T
  first_store [] = stuck
  first_store (store p v ∷ es) = got v
  first_store (awake c ∷ es) = stuck

  unfoldable pub taken : Outcome T → Taken T
  taken o = elim o.reply [
    | returns b ↦ if b then first_store o.effects else nothing
    | holds ↦ stuck
    | spins ↦ stuck
  ]

-- The body of the loop is `act`, and `go` the other half of its condition. The result is the load, with
-- the channel and the state behind the loop; `none` is out of fuel, or a read that does not return.
module _ {T S : Type 0} (self : Caller) (act : T → S → S) (go : S → Bool) where
  pub count_one : Option (ℕ × Channel T × S) → Option (ℕ × Channel T × S)
  count_one none = none
  count_one (some (n, c, s)) = some (suc n, c, s)

  -- One turn: what the read brought, and the rest of the loop for an element.
  pub after_read : Outcome T → (T → Option (ℕ × Channel T × S)) → S → Option (ℕ × Channel T × S)
  after_read o later s = elim (taken o) [
    | stuck ↦ none
    | nothing ↦ some (0, o.channel, s)
    | got v ↦ count_one (later v)
  ]

  pub drain : ℕ → Channel T → S → Option (ℕ × Channel T × S)
  drain zero c s = none
  drain (suc fuel) c s =
      let o = read self 0 true c in
      let turn = after_read o (λ v. drain fuel o.channel (act v s)) s in
      if go s then turn else some (0, c, s)
