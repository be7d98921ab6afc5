-- ===== src/Rpc/Server/Tests.antt =====
-- A server of two interfaces, with one call at work, and the theorem applied there.
use chroutine.Prelude.{ℕ, ◌≤◌, ◌≡◌, refl, true, some, List, [], ◌∷◌}
use chroutine.Rpc.Server.{CallStep, process, finish, Round, RpcServer, Event, select}
use chroutine.Rpc.Server.Listening.{listening, AllStarted, select-listening}

abbrev round_at : ℕ → ℕ → CallStep → Round
round_at address service step = record { address = address; service = service; step = step }

abbrev server : RpcServer
server = record {
  running = true;
  built = true;
  rounds = round_at 1 10 process ∷ round_at 2 20 process ∷ round_at 3 10 finish ∷ [];
  requested = 1 ∷ 2 ∷ 3 ∷ [];
  working = 3 ∷ [];
  faults = [];
}

-- A call comes for the round 2, and the round 3 is over.
abbrev events : List Event
events =
    record { tag = 2; ok = true; made = some 4 } ∷ record { tag = 3; ok = true; made = some 0 } ∷ []

select-listening_example :
    ((select events server).0 ≤ 101)
    × ((service : ℕ)
        → listening service (select events server).1.rounds ≡ listening service server.rounds)
    × AllStarted (select events server).1.rounds
select-listening_example =
    select-listening events server ((4, refl), ((0, refl), tt)) (refl, (refl, (refl, tt)))
