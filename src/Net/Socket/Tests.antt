-- ===== src/Net/Socket/Tests.antt =====
-- A socket at concrete inputs, and the theorems applied there.
use chroutine.Prelude.{◌≡◌, refl, [], ◌∷◌, ◌++◌, none, false, length, concat, arith, ◌+◌}
use chroutine.Net.Socket.{
  taken, interrupted, refused, bytes, Socket, write, on_write, on_read, new_data, count,
}
use chroutine.Net.Socket.Send.{write_lem}
use chroutine.Net.Socket.Resend.{on_write-resends}

abbrev idle : Socket
idle = record { fd = 7; is_listener = false; pending = []; conn_res_chan = none; sent = [] }

abbrev waiting : Socket
waiting = record idle { pending = (1 ∷ 2 ∷ 3 ∷ []) ∷ [] }

read_three : on_read (bytes (4 ∷ 5 ∷ 6 ∷ [])) idle ≡ (count 3, new_data (4 ∷ 5 ∷ 6 ∷ []) ∷ [])
unfolding on_read
read_three = refl

write_lem_example :
    let (n, es, s') = write (interrupted ∷ taken 1 ∷ refused ∷ []) (1 ∷ 2 ∷ 3 ∷ []) idle in
    (s'.sent ++ concat s'.pending ≡ 1 ∷ 2 ∷ 3 ∷ []) × (length s'.sent ≡ 0 + n)
write_lem_example = write_lem (interrupted ∷ taken 1 ∷ refused ∷ []) (1 ∷ 2 ∷ 3 ∷ []) idle

on_write-resends_example :
    let s' = (on_write (taken 0 ∷ refused ∷ []) waiting).2 in
    let s'' = (on_write (taken 2 ∷ []) s').2 in (s''.sent ≡ 1 ∷ 1 ∷ 2 ∷ 3 ∷ []) × (s''.pending ≡ [])
on_write-resends_example = on_write-resends 0 1 (2 ∷ 3 ∷ []) waiting refl (omega arith)
