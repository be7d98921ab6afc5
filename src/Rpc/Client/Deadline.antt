-- ===== src/Rpc/Client/Deadline.antt =====
-- The copy that `call` of net/rpc makes has no deadline, and may be answered when it is deleted.
use chroutine.Prelude.{
  ℕ, ◌+◌, ◌*◌, ◌-◌, ◌%◌, ◌^◌, ◌<◌, ltb, arith, ◌≡◌, refl, ap, ◌∙◌, Bool, true, false, Option, none,
  some, [], ◌∷◌, ◌++◌, ◌==◌, ==_iff, if◌then◌else◌,
}
use chroutine.Prelude.Int.{ℤ, pos, negsuc, positive}
use chroutine.Prelude.Ids.{contains}
use chroutine.Chroutine.{invalid_id}
use chroutine.Rpc.Client.{
  Call, Calls, to_int, set_timeout, copy_call, set_opt, put_call, call, wait_call, begin_call_sync,
  end_call_sync, on_rsp, select_loop, select,
}

-- The calls behind the wait of `call_sync`, of the call at `p` with its copy at `clone`.
abbrev pub waited : ℕ → ℕ → ℕ → Calls → Calls
waited current p clone s = (begin_call_sync current p clone s).1

self_test : (p : ℕ) → (p == p) ≡ true
self_test p = (==_iff p p).1 refl

call_at-put : (p : ℕ) (c : Call) (s : Calls) → (put_call p c s).call_at p ≡ c
call_at-put p c s = ap (λ (b : Bool). if b then c else s.call_at p) (self_test p)

-- The copy of a call, as `call` leaves it.
call_at-call :
    (p clone : ℕ) (c : Call) (s : Calls)
    → (call p clone (put_call p c s)).call_at clone ≡ copy_call c
unfolding call set_opt copy_call
call_at-call p clone c s =
    call_at-put clone (set_opt (copy_call ((put_call p c s).call_at p))) (put_call p c s)
    ∙ ap (λ d. set_opt (copy_call d)) (call_at-put p c s)

faults-call : (p clone : ℕ) (s : Calls) → (call p clone s).faults ≡ s.faults
unfolding call
faults-call p clone s = refl

-- The time that `wait_call` waits, by the call, and the deadline that it leaves.
wait_call_lem :
    (current p ms : ℕ) (s : Calls)
    → (current == invalid_id) ≡ false
    → positive (s.call_at p).chroutine_timeout_ms ≡ ms
    → (ms == 0) ≡ false
    → ((wait_call current p s).0 ≡ some ms)
      × ((wait_call current p s).1.deleted ≡ s.deleted)
      × ((wait_call current p s).1.faults ≡ s.faults)
      × (((wait_call current p s).1.call_at p).deadline ≡ (s.call_at p).deadline)
unfolding wait_call
wait_call_lem current p ms s known e room = (
  ap (λ b. if b then none else later (positive (s.call_at p).chroutine_timeout_ms)) known
      ∙ ap later e
      ∙ ap (λ b. if b then none else some ms) room,
  refl,
  refl,
  ap (λ (c : Call). c.deadline) (call_at-put p (record (s.call_at p) { my_chroutine = current }) s),
)
  where
    later : ℕ → Option ℕ
    later k = if k == 0 then none else some k

-- An answer for a deleted call.
faults-select :
    (p : ℕ) (s : Calls)
    → (p == 0) ≡ false
    → (select (some p ∷ []) (end_call_sync p s).1).1.faults ≡ s.faults ++ p ∷ []
unfolding select select_loop on_rsp end_call_sync
faults-select p s object =
    ap (λ (b : Bool). (if b then gone else on_rsp p gone).faults) object
    ∙ ap
        (λ (b : Bool).
          (if (if b then true else contains p s.deleted)
            then record gone { faults = gone.faults ++ p ∷ [] }
            else rest).faults)
        (self_test p)
  where
    gone : Calls
    gone = record s { deleted = p ∷ s.deleted }

    rest : Calls
    rest =
        if (s.call_at p).my_chroutine == invalid_id
        then gone
        else record gone { awoken = gone.awoken ++ (s.call_at p).my_chroutine ∷ [] }

positive-to_int : (n : ℕ) → n < 2 ^ 31 → positive (to_int n) ≡ n
unfolding to_int
positive-to_int n small =
    let same : n % 2 ^ 32 ≡ n = omega (arith, small) in
    ap (λ k. positive (if ltb k (2 ^ 31) then pos k else negsuc (2 ^ 32 - k - 1))) same
    ∙ ground (arith, small)

-- For a call whose timeout was set to a number of seconds above zero, where the wait in milliseconds fits
-- in an int of 32 bits and the copy is not at the null address: `call_sync` of a chroutine waits as long as was set, and half a second more; but the copy has
-- no deadline. If the answer comes when the wait has run out, `select` uses the deleted copy.
pub call_sync-no_deadline :
    (current p clone : ℕ) (seconds : ℤ) (s : Calls)
    → (current == invalid_id) ≡ false
    → (clone == 0) ≡ false
    → positive seconds * 1000 + 500 < 2 ^ 31
    → (positive seconds == 0) ≡ false
    → let ready = put_call p (set_timeout seconds (s.call_at p)) s in
      ((begin_call_sync current p clone ready).0 ≡ some (positive seconds * 1000 + 500))
      × (((waited current p clone ready).call_at clone).deadline ≡ none)
      × ((select (some clone ∷ []) (end_call_sync clone (waited current p clone ready)).1).1.faults
          ≡ s.faults ++ clone ∷ [])
unfolding begin_call_sync set_timeout copy_call
call_sync-no_deadline current p clone seconds s known object fits positive_ =
    let ready = put_call p (set_timeout seconds (s.call_at p)) s in
    let made = call_at-call p clone (set_timeout seconds (s.call_at p)) s in
    let ms = positive seconds * 1000 + 500 in
    let time =
      ap (λ (b : Bool). positive (if b then pos 60000 else to_int (positive seconds * 1000 + 500)))
        positive_
      ∙ positive-to_int ms fits in
    let w =
      wait_call_lem current clone ms (call p clone ready) known
        (ap (λ (c : Call). positive c.chroutine_timeout_ms) made ∙ time) (ground arith) in
    (
      w.0,
      w.3 ∙ ap (λ (c : Call). c.deadline) made,
      faults-select clone (waited current p clone ready) object
          ∙ ap (λ l. l ++ clone ∷ []) (w.2 ∙ faults-call p clone ready),
    )
