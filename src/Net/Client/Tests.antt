-- ===== src/Net/Client/Tests.antt =====
-- A client whose host does not answer at once, and the theorems applied there.
use chroutine.Prelude.{ℕ, ◌≡◌, refl, true, false, none, some, [], ◌∷◌, arith}
use chroutine.Prelude.Int.{pos, negsuc}
use chroutine.Channel.{Caller, Channel, store, awake, write}
use chroutine.Net.Client.{Client, creating, Block, is_connected, resume_connect, time_out}
use chroutine.Net.Client.Connecting.{dial, lost, succeeds, connect-answered, time_out-stale}

abbrev caller : ℕ → Caller
caller n = record { thread_id = 1; chroutine_id = n }

-- Two blocks.
abbrev blocks : Channel Block
blocks = record {
  w_index = 0;
  r_index = 0;
  max_size = 2;
  data_array = λ i. i ∷ 5 ∷ [];
  unread = 2;
  waiting_write_que = [];
  waiting_read_que = [];
  locked = false;
}

abbrev client : Client
client = record {
  socket = none;
  state = creating;
  read_chan = blocks;
  write_chan = blocks;
  conn_result_chan = record {
    w_index = 0;
    r_index = 0;
    max_size = 1;
    data_array = λ i. pos 0;
    unread = 0;
    waiting_write_que = [];
    waiting_read_que = [];
    locked = false;
  };
}

connect-answered_example :
    ((write (caller 0) (pos 0) false (dial (caller 4) 6 90 91 client).conn_result_chan).effects
      ≡ store 91 (pos 0) ∷ awake (caller 4) ∷ [])
    × (is_connected (resume_connect (pos 0) (some 0) (dial (caller 4) 6 90 91 client)).1
        ≡ succeeds (resume_connect (pos 0) (some 0) (dial (caller 4) 6 90 91 client)).0)
    × (is_connected (resume_connect (pos 0) (some 0) (dial (caller 4) 6 90 91 client)).1 ≡ true)
connect-answered_example =
    connect-answered (caller 4) (caller 0) 6 90 91 (pos 0) (some 0) client (refl, refl, omega arith)

time_out-stale_example :
    let redialled = dial (caller 7) 8 90 95 (lost (caller 4) (caller 0) 6 90 91 client) in
    ((time_out (caller 5) redialled).effects ≡ store 95 (negsuc 1) ∷ awake (caller 7) ∷ [])
    × ((resume_connect (negsuc 1) none redialled).0 ≡ negsuc 0)
    × (is_connected (resume_connect (negsuc 1) none redialled).1 ≡ false)
time_out-stale_example =
    time_out-stale (caller 4) (caller 0) (caller 5) (caller 7) 6 90 91 8 95 none client
      (refl, refl, omega arith)
