-- ===== src/Rpc/Server/Listening.antt =====
-- Each interface of net/rpc/grpc_async_server.cpp always has a round that listens.
use chroutine.Prelude.{
  ℕ, ◌+◌, ◌≤◌, ◌≡◌, refl, sym, ap, ◌∙◌, inl, inr, Bool, true, false, Option, none, some, List, [],
  ◌∷◌, ltb, ◌==◌, ==_iff, if◌then◌else◌, arith, subst, Bool-cases,
}
use chroutine.Rpc.Server.{
  CallStep, create, process, finish, Round, RpcServer, Event, find_round, set_step, delete_round,
  request, listen, re_serve, process_step, process_found, process_round, take_event, select_loop,
  select,
}

-- A round that listens for a call of the interface `service` counts 1.
abbrev is_step : CallStep → CallStep → Bool
is_step create create = true
is_step process process = true
is_step finish finish = true
is_step a b = false

abbrev share : ℕ → Round → ℕ
share service r = if is_step process r.step then (if r.service == service then 1 else 0) else 0

abbrev pub listening : ℕ → List Round → ℕ
listening service [] = 0
listening service (r ∷ rs) = share service r + listening service rs

-- Every round has had its first `process()`.
abbrev pub AllStarted : List Round → Type 0
AllStarted [] = Unit
AllStarted (r ∷ rs) = (is_step create r.step ≡ false) × AllStarted rs

-- `create_me` never returns the null pointer.
abbrev pub AllMade : List Event → Type 0
AllMade [] = Unit
AllMade (e ∷ es) = ((address : ℕ) × (e.made ≡ some address)) × AllMade es

abbrev share_of : ℕ → Option Round → ℕ
share_of service none = 0
share_of service (some r) = share service r

abbrev IsStarted : Option Round → Type 0
IsStarted none = Unit
IsStarted (some r) = is_step create r.step ≡ false

listening-finish :
    (service tag : ℕ) (rs : List Round)
    → listening service (set_step tag finish rs) + share_of service (find_round tag rs)
      ≡ listening service rs
unfolding set_step find_round
listening-finish service tag [] = refl
listening-finish service tag (r ∷ rs) = elim (Bool-cases (r.address == tag)) [
  | inl same ↦ simp same (omega arith)
  | inr differs ↦ simp differs (omega (arith, listening-finish service tag rs))
]

listening-delete :
    (service tag : ℕ) (rs : List Round)
    → listening service (delete_round tag rs) + share_of service (find_round tag rs)
      ≡ listening service rs
unfolding delete_round find_round
listening-delete service tag [] = refl
listening-delete service tag (r ∷ rs) = elim (Bool-cases (r.address == tag)) [
  | inl same ↦ simp same (omega arith)
  | inr differs ↦ simp differs (omega (arith, listening-delete service tag rs))
]

find_round-IsStarted : (tag : ℕ) (rs : List Round) → AllStarted rs → IsStarted (find_round tag rs)
unfolding find_round
find_round-IsStarted tag [] all = tt
find_round-IsStarted tag (r ∷ rs) all = elim (Bool-cases (r.address == tag)) [
  | inl same ↦ simp same all.0
  | inr differs ↦ simp differs (find_round-IsStarted tag rs all.1)
]

set_step-AllStarted :
    (tag : ℕ) (rs : List Round) → AllStarted rs → AllStarted (set_step tag finish rs)
unfolding set_step
set_step-AllStarted tag [] all = tt
set_step-AllStarted tag (r ∷ rs) all = elim (Bool-cases (r.address == tag)) [
  | inl same ↦ simp same (refl, all.1)
  | inr differs ↦ simp differs (all.0, set_step-AllStarted tag rs all.1)
]

delete_round-AllStarted :
    (tag : ℕ) (rs : List Round) → AllStarted rs → AllStarted (delete_round tag rs)
unfolding delete_round
delete_round-AllStarted tag [] all = tt
delete_round-AllStarted tag (r ∷ rs) all = elim (Bool-cases (r.address == tag)) [
  | inl same ↦ simp same all.1
  | inr differs ↦ simp differs (all.0, delete_round-AllStarted tag rs all.1)
]

rounds-listen :
    (address service : ℕ) (s : RpcServer)
    → (listen address service s).rounds
      ≡ record { address = address; service = service; step = process } ∷ s.rounds
unfolding listen request set_step
rounds-listen address service s =
    ap
      (λ (b : Bool).
        if b
        then served ∷ s.rounds
        else record served { step = create } ∷ set_step address process s.rounds)
      ((==_iff address address).1 refl)
  where
    served : Round
    served = record { address = address; service = service; step = process }

-- The state of the rounds is kept: as many listen for each interface, and all have started.
abbrev Keeps : RpcServer → RpcServer → Type 0
Keeps s t =
    ((service : ℕ) → listening service t.rounds ≡ listening service s.rounds) × AllStarted t.rounds

abbrev weight : ℕ → CallStep → ℕ → ℕ
weight service step other = if is_step process step then (if other == service then 1 else 0) else 0

process_step-Keeps :
    (step : CallStep) (tag service b : ℕ) (s : RpcServer)
    → is_step create step ≡ false
    → AllStarted s.rounds
    → ((other : ℕ) → share_of other (find_round tag s.rounds) ≡ weight other step service)
    → Keeps s (process_step step tag service (some b) s)
unfolding process_step re_serve
process_step-Keeps create tag service b s e all found = absurd (ground (arith, e))
process_step-Keeps process tag service b s e all found =
    subst (λ l. ((other : ℕ) → listening other l ≡ listening other s.rounds) × AllStarted l)
      (sym (rounds-listen b service (record s { rounds = set_step tag finish s.rounds })))
      (
        λ other. omega (arith, listening-finish other tag s.rounds, found other),
        (refl, set_step-AllStarted tag s.rounds all),
      )
process_step-Keeps finish tag service b s e all found = (
  λ other. omega (arith, listening-delete other tag s.rounds, found other),
  delete_round-AllStarted tag s.rounds all,
)

process_found-Keeps :
    (found : Option Round) (tag b : ℕ) (s : RpcServer)
    → find_round tag s.rounds ≡ found
    → IsStarted found
    → AllStarted s.rounds
    → Keeps s (process_found found tag (some b) s)
unfolding process_found
process_found-Keeps none tag b s e started all = (λ other. refl, all)
process_found-Keeps (some r) tag b s e started all =
    process_step-Keeps r.step tag r.service b s started all (λ other. ap (share_of other) e)

take_event-Keeps :
    (e : Event) (b : ℕ) (s : RpcServer)
    → e.made ≡ some b
    → AllStarted s.rounds
    → Keeps s (take_event e s)
unfolding process_round
take_event-Keeps e b s made all = elim (Bool-cases (e.tag == 0)) [
  | inl null ↦ simp null (λ other. refl, all)
  | inr tag ↦ simp tag (
      simp made (
        process_found-Keeps (find_round e.tag s.rounds) e.tag b s refl
          (find_round-IsStarted e.tag s.rounds all) all))
]

abbrev Served : RpcServer → ℕ × RpcServer → Type 0
Served s r = (r.0 ≤ 101) × Keeps s r.1

select_loop-Served :
    (n : ℕ) (es : List Event) (s : RpcServer)
    → n ≤ 100
    → AllMade es
    → AllStarted s.rounds
    → Served s (select_loop n es s)
unfolding select_loop
select_loop-Served n [] s le made all = (omega (arith, le), ((λ other. refl), all))
select_loop-Served n (e ∷ es) s le made all =
    let now = take_event-Keeps e made.0.0 s made.0.1 all in
    elim (Bool-cases e.ok) [
      | inr bad ↦ simp bad (omega (arith, le), ((λ other. refl), all))
      | inl ok ↦ elim (Bool-cases (ltb 100 (n + 1))) [
        | inl busy ↦ simp (ok, busy) (omega (arith, le), now)
        | inr more ↦
            let r = select_loop-Served (n + 1) es (take_event e s) (ground arith) made.1 now.1 in
            simp (ok, more) (r.0, ((λ other. r.1.0 other ∙ now.0 other), r.1.1))
      ]
    ]

-- Where every round has had its first `process()` and `create_me` never returns null: `select` processes
-- at most 101 events, and behind it as many rounds listen as before, for every interface.
pub select-listening :
    (es : List Event) (s : RpcServer)
    → AllMade es
    → AllStarted s.rounds
    → ((select es s).0 ≤ 101)
      × ((service : ℕ) → listening service (select es s).1.rounds ≡ listening service s.rounds)
      × AllStarted (select es s).1.rounds
unfolding select
select-listening es s made all = elim (Bool-cases s.running) [
  | inl running ↦
      let r = select_loop-Served 0 es s (omega arith) made all in simp running (r.0, r.1.0, r.1.1)
  | inr stopped ↦ simp stopped (omega arith, (λ other. refl), all)
]
