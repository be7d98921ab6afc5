-- ===== src/Net/Client/Connecting.antt =====
-- `connect` of net/epoll/raw_tcp_client.cpp: what a waiting caller gets, and which timeout it gets.
use chroutine.Prelude.{
  ℕ, zero, suc, ◌<◌, ◌≡◌, refl, sym, ap, ◌∙◌, Bool, true, false, Option, none, some, [], ◌∷◌, subst,
  ◌==◌, arith, if◌then◌else◌,
}
use chroutine.Prelude.Int.{ℤ, pos, negsuc}
use chroutine.Channel.{Caller, Channel, Outcome, store, awake, done, write, read, reset}
use chroutine.Channel.Reading.{reset-read-write, cleared}
use chroutine.Net.Client.{
  Client, Begun, returned, waits, in_progress, connect, await_result, resume_connect, conclude,
  is_connected, report_success, time_out, on_closed, connecting, new_socket,
}

-- The client that the first part of `connect` leaves, and with the channel that an answer leaves.
abbrev pub left_by : Begun → Client
left_by (returned r c) = c
left_by (waits o c) = c

abbrev pub answered : Outcome ℤ → Client → Client
answered o c = record c { conn_result_chan = o.channel }

abbrev pub succeeds : ℤ → Bool
succeeds (pos zero) = true
succeeds (pos (suc n)) = false
succeeds (negsuc n) = false

-- `getsockopt` succeeds and finds no error.
abbrev pub is_clear : Option ℕ → Bool
is_clear none = false
is_clear (some n) = n == 0

abbrev pub HasIdle : Channel ℤ → Type 0
HasIdle ch = (ch.locked ≡ false) × (ch.waiting_read_que ≡ []) × (0 < ch.max_size)

-- No reader waits at the channel of results, which has room.
abbrev pub IsIdle : Client → Type 0
IsIdle c = HasIdle c.conn_result_chan

-- `connect` with the answer of `::connect` that it is in progress.
abbrev pub dial : Caller → ℕ → ℕ → ℕ → Client → Client
dial self fd chan out_ptr c = left_by (connect self (suc fd) in_progress chan out_ptr c)

parked : Caller → ℕ → ℕ → ℕ → Client → Client
parked self fd chan out_ptr c = record c {
  socket = some (new_socket (suc fd) (some chan));
  state = connecting;
  conn_result_chan = (read self out_ptr false (reset c.conn_result_chan).channel).channel;
}

dial-parked :
    (self : Caller) (fd chan out_ptr : ℕ) (c : Client)
    → dial self fd chan out_ptr c ≡ parked self fd chan out_ptr c
unfolding connect await_result parked
dial-parked self fd chan out_ptr c =
    let valid : (suc fd == 0) ≡ false = ground arith in simp valid refl

-- `resume_connect` returns 0 just when it connects.
resume_connect-succeeds :
    (v : ℤ) (error : Option ℕ) (c : Client)
    → (is_connected (resume_connect v error c).1 ≡ succeeds (resume_connect v error c).0)
      × (is_connected (resume_connect v error c).1 ≡ (if succeeds v then is_clear error else false))
unfolding resume_connect conclude is_connected
resume_connect-succeeds (pos zero) none c = (refl, refl)
resume_connect-succeeds (pos zero) (some zero) c = (refl, ground arith)
resume_connect-succeeds (pos zero) (some (suc n)) c = (refl, ground arith)
resume_connect-succeeds (pos (suc n)) error c = (refl, refl)
resume_connect-succeeds (negsuc n) error c = (refl, refl)

-- The write that answers a waiting `connect`.
dial-write :
    (self other : Caller) (fd chan out_ptr : ℕ) (v : ℤ) (c : Client)
    → IsIdle c
    → write other v false (dial self fd chan out_ptr c).conn_result_chan
      ≡ done true (cleared self out_ptr c.conn_result_chan) (store out_ptr v ∷ awake self ∷ [])
unfolding parked
dial-write self other fd chan out_ptr v c (open_, nobody, room) =
    ap (λ d. write other v false d.conn_result_chan) (dial-parked self fd chan out_ptr c)
    ∙ reset-read-write self out_ptr c.conn_result_chan other v open_ nobody room

-- Where the channel of results is unlocked, has room, and no chroutine waits to read it: the next value
-- written to it wakes just the caller of `connect`, with that value; `connect` then returns 0 if and
-- only if the client is connected, and that is when the value is 0 and the socket has no error.
pub connect-answered :
    (self other : Caller) (fd chan out_ptr : ℕ) (v : ℤ) (error : Option ℕ) (c : Client)
    → IsIdle c
    → ((write other v false (dial self fd chan out_ptr c).conn_result_chan).effects
        ≡ store out_ptr v ∷ awake self ∷ [])
      × (is_connected (resume_connect v error (dial self fd chan out_ptr c)).1
          ≡ succeeds (resume_connect v error (dial self fd chan out_ptr c)).0)
      × (is_connected (resume_connect v error (dial self fd chan out_ptr c)).1
          ≡ (if succeeds v then is_clear error else false))
connect-answered self other fd chan out_ptr v error c idle =
    let resumed = resume_connect-succeeds v error (dial self fd chan out_ptr c) in
    (ap (λ o. o.effects) (dial-write self other fd chan out_ptr v c idle), resumed.0, resumed.1)

-- A first `connect` that succeeds, and the loss of its connection.
abbrev pub lost : Caller → Caller → ℕ → ℕ → ℕ → Client → Client
lost self other fd chan out_ptr c =
    on_closed
      (resume_connect (pos zero) (some 0) (
        answered (report_success other (dial self fd chan out_ptr c))
          (dial self fd chan out_ptr c))).1

lost-IsIdle :
    (self other : Caller) (fd chan out_ptr : ℕ) (c : Client)
    → IsIdle c
    → IsIdle (lost self other fd chan out_ptr c)
unfolding report_success resume_connect conclude on_closed parked
lost-IsIdle self other fd chan out_ptr c idle =
    subst
      (λ d.
        IsIdle
          (on_closed (resume_connect (pos zero) (some 0) (answered (report_success other d) d)).1))
      (sym (dial-parked self fd chan out_ptr c))
      (let e =
          reset-read-write self out_ptr c.conn_result_chan other (pos zero) idle.0 idle.1 idle.2 in
        subst (λ o. HasIdle o.channel) (sym e) (refl, refl, idle.2))

-- A client, whose channel of results is unlocked, has room and no reader, connects with success, loses
-- the connection and connects again. The timeout of the first `connect` then wakes the caller of the
-- second with -2, and that returns -1, disconnected: it does not wait until its own timeout.
pub time_out-stale :
    (self other timer again : Caller) (fd chan out_ptr fd' out_ptr' : ℕ) (error : Option ℕ)
    (c : Client)
    → IsIdle c
    → let redialled = dial again fd' chan out_ptr' (lost self other fd chan out_ptr c) in
      ((time_out timer redialled).effects ≡ store out_ptr' (negsuc 1) ∷ awake again ∷ [])
      × ((resume_connect (negsuc 1) error redialled).0 ≡ negsuc 0)
      × (is_connected (resume_connect (negsuc 1) error redialled).1 ≡ false)
unfolding time_out resume_connect conclude is_connected
time_out-stale self other timer again fd chan out_ptr fd' out_ptr' error c idle = (
  ap (λ o. o.effects)
      (dial-write again timer fd' chan out_ptr' (negsuc 1) (lost self other fd chan out_ptr c)
        (lost-IsIdle self other fd chan out_ptr c idle)),
  refl,
  refl,
)
