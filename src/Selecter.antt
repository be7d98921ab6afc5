-- ===== src/Selecter.antt =====
-- engin/chan_selecter.hpp and .cpp: `chan_selecter_t`, which reads from the first of several channels
-- that has something to read. Channels are shared, so a case holds the key of its channel, and the
-- channels stand in a store.
pub mod First
pub mod Cases
mod Tests
use chroutine.Prelude.{
  ℕ, Bool, true, false, Option, none, some, List, [], ◌∷◌, ◌++◌, ltb, ◌==◌, if◌then◌else◌,
}
use chroutine.Channel.{Caller, Channel, Effect, Reply, returns, holds, spins, Outcome, read}

-- `chan_select_node_t` of the type `selecter_type_read`, the only one that `add_case` makes. A
-- callback is a number.
pub record Node : Type 0 where
  pub chan : ℕ
  pub data_ptr : ℕ
  pub callback : ℕ

-- `chan_selecter_t`; `cases` is a map in the order of its keys, which are the channels.
pub record Selecter : Type 0 where
  pub default : Option ℕ
  pub cases : List Node

unfoldable pub insert_case : Node → List Node → List Node
insert_case node [] = node ∷ []
insert_case node (n ∷ ns) =
    let later = insert_case node ns in
    if node.chan == n.chan
    then node ∷ ns
    else if ltb node.chan n.chan
    then node ∷ n ∷ ns
    else n ∷ later

pub erase_case : ℕ → List Node → List Node
erase_case chan [] = []
erase_case chan (n ∷ ns) =
    let later = erase_case chan ns in if n.chan == chan then ns else n ∷ later

-- `add_case(chan, data_ptr, callback)`: false is -1, for a null pointer; an old case of the channel is
-- replaced. `del_case(chan)`, and `default_case(callback)`.
unfoldable pub add_case : ℕ → ℕ → ℕ → Selecter → Bool × Selecter
add_case chan data_ptr callback s =
    let node : Node = record { chan = chan; data_ptr = data_ptr; callback = callback } in
    if chan == 0
    then (false, s)
    else if data_ptr == 0
    then (false, s)
    else (true, record s { cases = insert_case node s.cases })

pub del_case : ℕ → Selecter → Selecter
del_case chan s = record s { cases = erase_case chan s.cases }

pub default_case : ℕ → Selecter → Selecter
default_case callback s = record s { default = some callback }

-- What `select_once` comes to: 0, or 1 with the callback that it calls, or a read that does not
-- return.
pub data Selected : Type 0 where
  none_called : Selected
  called : ℕ → Selected
  stuck : Selected

pub record Selection {ℓ} (T : Type ℓ) : Type ℓ where
  pub selected : Selected
  pub chans : ℕ → Channel T
  pub effects : List (Effect T)

module _ {ℓ} {T : Type ℓ} where
  abbrev pub put_chan : (ℕ → Channel T) → ℕ → Channel T → ℕ → Channel T
  put_chan chans k c j = if j == k then c else chans j

  -- What follows `node.chan->read(node.data_ptr, true)`; `later` is the rest of the loop.
  unfoldable pub after_read : Node → (ℕ → Channel T) → Outcome T → Selection T → Selection T
  after_read node chans o later = elim o.reply [
    | returns b ↦
        if b
        then record {
          selected = called node.callback;
          chans = put_chan chans node.chan o.channel;
          effects = o.effects;
        }
        else later
    | holds ↦ later
    | spins ↦ record {
      selected = stuck;
      chans = put_chan chans node.chan o.channel;
      effects = o.effects;
    }
  ]

  -- `select_once()` on the cases from the iterator on; a read that returns false changes nothing.
  unfoldable pub select_from : Caller → List Node → (ℕ → Channel T) → Selection T
  unfolding after_read
  select_from self [] chans = record { selected = none_called; chans = chans; effects = [] }
  select_from self (node ∷ nodes) chans =
      after_read node chans (read self node.data_ptr true (chans node.chan))
        (select_from self nodes chans)

  unfoldable pub select_once : Caller → Selecter → (ℕ → Channel T) → Selection T
  unfolding select_from
  select_once self s chans = select_from self s.cases chans

  -- One round of the loop of `select()`: `none` if it sleeps and goes on.
  pub select_round : Caller → Selecter → (ℕ → Channel T) → Option (Selection T)
  unfolding select_once
  select_round self s chans =
      let once = select_once self s chans in
      elim once.selected [
        | none_called ↦ elim s.default [
          | none ↦ none
          | some callback ↦ some (record once { selected = called callback })
        ]
        | called callback ↦ some once
        | stuck ↦ some once
      ]
