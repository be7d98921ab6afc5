-- ===== src/Selecter/First.antt =====
-- Which case `select_once` of engin/chan_selecter.cpp calls.
use chroutine.Prelude.{
  ℕ, ◌<◌, ◌≡◌, refl, ap, ◌⊎◌, inl, inr, Bool, true, false, List, [], ◌∷◌, ◌++◌, ◌==◌, arith,
  Bool-cases,
}
use chroutine.Prelude.All.{all}
use chroutine.Channel.{Caller, Channel, store, advance}
use chroutine.Channel.Reading.{try_read-empty, try_read-some}
use chroutine.Selecter.{
  Node, Selecter, Selection, none_called, called, put_chan, after_read, select_from, select_once,
}

module _ {T : Type 0} where
  abbrev pub is_empty : (ℕ → Channel T) → Node → Bool
  is_empty chans node = (chans node.chan).unread == 0

  -- No channel is locked, and none has a writer that waits.
  abbrev pub AllFree : (ℕ → Channel T) → Type 0
  AllFree chans = (k : ℕ) → ((chans k).locked ≡ false) × ((chans k).waiting_write_que ≡ [])

  -- The call of a case whose channel has something to read.
  abbrev pub taken : (ℕ → Channel T) → Node → Selection T
  taken chans node =
      let c = chans node.chan in
      record {
        selected = called node.callback;
        chans = put_chan chans node.chan (record (advance c) { locked = false });
        effects = store node.data_ptr (c.data_array c.r_index) ∷ [];
      }

  select_from_lem :
      (self : Caller) (nodes : List Node) (chans : ℕ → Channel T)
      → AllFree chans
      → ((all (is_empty chans) nodes ≡ true)
          × (select_from self nodes chans
              ≡ record { selected = none_called; chans = chans; effects = [] }))
        ⊎ ((front : List Node) × (node : Node) × (back : List Node) × (nodes ≡ front ++ node ∷ back)
            × (all (is_empty chans) front ≡ true)
            × (0 < (chans node.chan).unread)
            × (select_from self nodes chans ≡ taken chans node))
  unfolding select_from after_read
  select_from_lem self [] chans free = inl (refl, refl)
  select_from_lem self (n ∷ nodes) chans free = elim (Bool-cases (is_empty chans n)) [
    | inr some_there ↦ inr (
      [],
      n,
      nodes,
      refl,
      refl,
      ground arith,
      simp
          (try_read-some self n.data_ptr (chans n.chan) (free n.chan).0 (ground arith)
            (free n.chan).1)
          refl,
    )
    | inl none_there ↦
        let skip = try_read-empty self n.data_ptr (chans n.chan) (free n.chan).0 (ground arith) in
        elim (select_from_lem self nodes chans free) [
          | inl (a, e) ↦ inl (ground (arith, a), simp skip e)
          | inr (front, node, back, split, a, there, e) ↦
              inr (
                n ∷ front,
                node,
                back,
                ap (λ l. n ∷ l) split,
                ground (arith, a),
                there,
                simp skip e,
              )
        ]
  ]

  -- While no channel is locked or has a writer that waits: `select_once` calls none and changes
  -- nothing if all its channels are empty, else it takes the next element of the first channel, in the
  -- order of the cases, that has one, and calls that case; no other channel changes.
  pub select_once_lem :
      (self : Caller) (s : Selecter) (chans : ℕ → Channel T)
      → AllFree chans
      → ((all (is_empty chans) s.cases ≡ true)
          × (select_once self s chans
              ≡ record { selected = none_called; chans = chans; effects = [] }))
        ⊎ ((front : List Node) × (node : Node) × (back : List Node) × (s.cases
              ≡ front ++ node ∷ back)
            × (all (is_empty chans) front ≡ true)
            × (0 < (chans node.chan).unread)
            × (select_once self s chans ≡ taken chans node))
  unfolding select_once
  select_once_lem self s chans free = select_from_lem self s.cases chans free
