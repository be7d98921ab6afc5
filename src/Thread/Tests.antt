-- ===== src/Thread/Tests.antt =====
-- One thread's functions at concrete inputs, and the theorems applied there.
use chroutine.Prelude.{◌≡◌, refl, [], ◌∷◌, arith}
use chroutine.Thread.{Thread, worker, new_thread, register_selector, insert_key}
use chroutine.Thread.Load.{initial, update}
use chroutine.Thread.Load.Window.{IsLoad, initial-IsLoad, update-IsLoad}

abbrev thread : Thread
thread = new_thread 3 worker

update-IsLoad_example : IsLoad 1 (update 1 initial)
update-IsLoad_example = update-IsLoad 1 1 initial (omega arith) (initial-IsLoad 1)

in_order :
    (register_selector 5 (register_selector 8 (register_selector 5 thread))).selector_list
    ≡ 5 ∷ 8 ∷ []
unfolding register_selector insert_key new_thread
in_order = refl
