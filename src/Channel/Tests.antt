-- ===== src/Channel/Tests.antt =====
-- Runs of the channel at concrete inputs, and the theorems applied there.
use chroutine.Prelude.{ℕ, ◌+◌, ◌≡◌, refl, true, false, List, [], ◌∷◌, ◌++◌, inr, arith}
use chroutine.Prelude.Int.{pos, negsuc}
use chroutine.Channel.{
  Channel, Caller, WriteContext, Call, writes, reads, store, awake, returns, holds, spins, create,
  write, read, reset, step, after, trace,
}
use chroutine.Channel.Valid.{IsValid, create-IsValid, step-IsValid}
use chroutine.Channel.Spec
use chroutine.Channel.Spec.{Queue, view, view_outcome}
use chroutine.Channel.Spec.Refine.{run_refines}
use chroutine.Channel.Spec.Fifo.{received, sent, create-accounts}
use chroutine.Channel.Blocking.{
  read-waiting_writer, reset-waiting_writer, AllSpin, AllHold, reads_by, contexts,
}

abbrev main_task : Caller
main_task = record { thread_id = 1; chroutine_id = 4 }

abbrev worker : Caller
worker = record { thread_id = 1; chroutine_id = 5 }

abbrev late_writer : WriteContext ℕ
late_writer = record { caller = worker; in_data = 9 }

-- Two of two elements, round the end of the array, and a writer that waits.
abbrev full : Channel ℕ
full = record {
  w_index = 1;
  r_index = 1;
  max_size = 2;
  data_array = λ i. i + 7;
  unread = 2;
  waiting_write_que = late_writer ∷ [];
  waiting_read_que = [];
  locked = false;
}

-- One of two elements, and nobody waits.
abbrev half_full : Channel ℕ
half_full = record full { w_index = 0; unread = 1; waiting_write_que = [] }

abbrev script : List (Call ℕ)
script =
    reads main_task 100 false
    ∷ writes worker 3 false
    ∷ writes worker 4 false
    ∷ reads main_task 101 true
    ∷ reads main_task 102 true
    ∷ []

full-IsValid : IsValid full
full-IsValid = record {
  r_in = omega arith;
  unread_in = omega arith;
  w_at = refl;
  readers_idle = inr refl;
}

half_full-IsValid : IsValid half_full
half_full-IsValid = record {
  r_in = omega arith;
  unread_in = omega arith;
  w_at = refl;
  readers_idle = inr refl;
}

trace-script :
    trace (create (pos 2) (λ _. 0)) script
    ≡ (holds, [])
      ∷ (returns true, store 100 3 ∷ awake main_task ∷ [])
      ∷ (returns true, [])
      ∷ (returns true, store 101 4 ∷ [])
      ∷ (returns false, [])
      ∷ []
unfolding trace step write read create
trace-script = refl

create_size : (create (negsuc 3) (λ i. i)).max_size ≡ 1
unfolding create
create_size = refl

step-IsValid_example : IsValid (step half_full (writes worker 3 false)).channel
step-IsValid_example = step-IsValid (writes worker 3 false) half_full-IsValid

create-IsValid_example : IsValid (create (negsuc 0) (λ i. i))
create-IsValid_example = create-IsValid (negsuc 0) (λ i. i)

run_refines_example :
    (trace half_full script ≡ Spec.trace (view half_full) script)
    × (view (after half_full script) ≡ Spec.after (view half_full) script)
run_refines_example = run_refines script half_full-IsValid

create-accounts_example :
    received (create (pos 2) (λ i. i)) script
      ++ (view (after (create (pos 2) (λ i. i)) script)).items
    ≡ sent (create (pos 2) (λ i. i)) script
create-accounts_example = create-accounts (pos 2) (λ i. i) script tt

read-waiting_writer_example :
    let o = read main_task 50 false full in
    (o.reply ≡ spins)
    × (o.effects ≡ store 50 8 ∷ [])
    × (after o.channel script ≡ o.channel)
    × AllSpin (trace o.channel script)
read-waiting_writer_example =
    read-waiting_writer main_task 50 false late_writer [] full script refl (omega arith) refl

abbrev two_readers : List (Caller × ℕ)
two_readers = (main_task, 50) ∷ (worker, 51) ∷ []

reset-waiting_writer_example :
    let o = reset full in
    (o.reply ≡ returns true)
    × AllHold (trace o.channel (reads_by two_readers))
    × (after o.channel (reads_by two_readers) ≡ record full {
      w_index = 0;
      r_index = 0;
      unread = 0;
      waiting_read_que = contexts two_readers;
      locked = false;
    })
reset-waiting_writer_example = reset-waiting_writer two_readers full refl
