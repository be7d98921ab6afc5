-- ===== src/Selecter/Tests.antt =====
-- The selecter at a concrete input, and the theorem applied there.
use chroutine.Prelude.{
  ℕ, ◌≡◌, ◌<◌, ◌⊎◌, refl, true, false, none, [], ◌∷◌, ◌++◌, List, ◌==◌, if◌then◌else◌,
}
use chroutine.Prelude.All.{all}
use chroutine.Channel.{Caller, Channel}
use chroutine.Selecter.{Node, Selecter, none_called, add_case, insert_case, select_once}
use chroutine.Selecter.First.{is_empty, taken, select_once_lem}

abbrev self : Caller
self = record { thread_id = 1; chroutine_id = 4 }

-- The channel 8 is empty; the others have the element 5.
abbrev channels : ℕ → Channel ℕ
channels k = record {
  w_index = 0;
  r_index = 0;
  max_size = 1;
  data_array = λ i. 5;
  unread = if k == 8 then 0 else 1;
  waiting_write_que = [];
  waiting_read_que = [];
  locked = false;
}

abbrev two_cases : Selecter
two_cases = record {
  default = none;
  cases =
      record { chan = 8; data_ptr = 70; callback = 1 }
      ∷ record { chan = 9; data_ptr = 71; callback = 2 }
      ∷ [];
}

in_order :
    (add_case 8 70 1 (add_case 9 71 2 (record { default = none; cases = [] })).1).1 ≡ two_cases
unfolding add_case insert_case
in_order = refl

select_once_lem_example :
    ((all (is_empty channels) two_cases.cases ≡ true)
      × (select_once self two_cases channels
          ≡ record { selected = none_called; chans = channels; effects = [] }))
    ⊎ ((front : List Node) × (node : Node) × (back : List Node) × (two_cases.cases
          ≡ front ++ node ∷ back)
        × (all (is_empty channels) front ≡ true)
        × (0 < (channels node.chan).unread)
        × (select_once self two_cases channels ≡ taken channels node))
select_once_lem_example = select_once_lem self two_cases channels (λ k. (refl, refl))
