-- ===== src/Http/Stub/Life.antt =====
-- The life of the requests of net/http_client/curl_stub.cpp over any history of `exec_curl` and `select`.
pub mod Fills
pub mod Cleans
pub mod Pushes
pub mod History
use chroutine.Prelude.{ℕ, ◌≡◌, false, some, List, [], ◌∷◌, ◌++◌, ◌==◌}
use chroutine.Prelude.Ids.{Distinct}
use chroutine.Chroutine.{invalid_id}
use chroutine.Http.Request.{Request}
use chroutine.Http.Stub.{Stub}
use chroutine.Http.Stub.Filling.{handle_of, handles}

abbrev pub keys : List (ℕ × ℕ) → List ℕ
keys [] = []
keys ((h, p) ∷ m) = h ∷ keys m

abbrev pub values : List (ℕ × ℕ) → List ℕ
values [] = []
values ((h, p) ∷ m) = p ∷ values m

-- The requests that no answer has reached: those of the table and those of the queue.
abbrev pub live : Stub → List ℕ
live s = values s.doing ++ s.todo

abbrev pub callers : (ℕ → Request) → List ℕ → List ℕ
callers requests [] = []
callers requests (p ∷ ps) = (requests p).my_chroutine ∷ callers requests ps

-- The chroutines that are woken or that a live request will wake.
abbrev pub owed : Stub → List ℕ
owed s = s.awoken ++ callers s.requests (live s)

abbrev pub Ready : Request → ℕ → Type 0
Ready r p =
    ((p == 0) ≡ false)
    × (r.curl_ptr ≡ some (handle_of r))
    × ((r.my_chroutine == invalid_id) ≡ false)

abbrev pub AllReady : (ℕ → Request) → List ℕ → Type 0
AllReady requests [] = Unit
AllReady requests (p ∷ ps) = Ready (requests p) p × AllReady requests ps

abbrev pub Keyed : (ℕ → Request) → List (ℕ × ℕ) → Type 0
Keyed requests [] = Unit
Keyed requests ((h, p) ∷ m) = (handle_of (requests p) ≡ h) × Keyed requests m

-- The live requests are there, with handles and chroutines; the table has them by their handles, and no
-- handle is of two of them.
pub record IsLive (s : Stub) : Type 0 where
  pub ready : AllReady s.requests (live s)
  pub keyed : Keyed s.requests s.doing
  pub apart : Distinct (keys s.doing ++ handles s.requests s.todo)
