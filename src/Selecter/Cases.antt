-- ===== src/Selecter/Cases.antt =====
-- The table of cases of engin/chan_selecter.cpp.
use chroutine.Prelude.{
  ℕ, ◌≡◌, refl, ap, ◌∙◌, Bool, true, false, List, [], ◌∷◌, ◌==◌, ==_iff, if◌then◌else◌,
}
use chroutine.Selecter.{Node, Selecter, insert_case, erase_case, add_case, del_case}

-- A case that is added to an empty table and deleted leaves it empty.
pub del_case-add_case :
    (chan data_ptr callback : ℕ) (s : Selecter)
    → (chan == 0) ≡ false
    → (data_ptr == 0) ≡ false
    → s.cases ≡ []
    → (del_case chan (add_case chan data_ptr callback s).1).cases ≡ []
unfolding del_case add_case insert_case erase_case
del_case-add_case chan data_ptr callback s there cell empty =
    ap
      (λ b. left_by (if b then (false, s) else if data_ptr == 0 then (false, s) else (true, added)))
      there
    ∙ ap (λ b. left_by (if b then (false, s) else (true, added))) cell
    ∙ ap (λ ns. erase_case chan (insert_case node ns)) empty
    ∙ ap (λ b. if b then [] else node ∷ []) ((==_iff chan chan).1 refl)
  where
    left_by : Bool × Selecter → List Node
    left_by r = erase_case chan r.1.cases

    node : Node
    node = record { chan = chan; data_ptr = data_ptr; callback = callback }

    added : Selecter
    added = record s { cases = insert_case node s.cases }
