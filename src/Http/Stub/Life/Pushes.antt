-- ===== src/Http/Stub/Life/Pushes.antt =====
-- How `push_curl_req` of net/http_client/curl_stub.cpp adds a live request.
use chroutine.Prelude.{
  ℕ, ◌+◌, ◌≡◌, refl, sym, ap, ap₂, ◌∙◌, false, List, [], ◌∷◌, ◌++◌, append_assoc, subst, ==_iff,
  if◌then◌else◌, arith,
}
use chroutine.Prelude.Ids.{contains, Distinct, Distinct-snoc, count, count-append}
use chroutine.Http.Request.{Request}
use chroutine.Http.Stub.{Stub, put_request}
use chroutine.Http.Stub.Filling.{handle_of, handles}
use chroutine.Http.Stub.Life.{keys, values, live, callers, owed, Ready, AllReady, IsLive}
use chroutine.Http.Stub.Life.Cleans.{
  Alike, callers-Alike, handles-Alike, AllReady-Alike, Keyed-Alike, Alike-back, Alike-front,
}

-- A new request behind the queue.
module _ (p : ℕ) (r : Request) (s : Stub) where
  abbrev pub pushed : Stub
  pushed = record (put_request p r s) { todo = s.todo ++ p ∷ [] }

  put-Alike : (ps : List ℕ) → contains p ps ≡ false → Alike s.requests pushed.requests ps
  put-Alike [] absent = tt
  put-Alike (q ∷ ps) absent = ground (arith, put-Alike ps)

  put_self : pushed.requests p ≡ r
  put_self = ap (λ b. if b then r else s.requests p) ((==_iff p p).1 refl)

callers-append :
    (requests : ℕ → Request) (xs ys : List ℕ)
    → callers requests (xs ++ ys) ≡ callers requests xs ++ callers requests ys
callers-append requests [] ys = refl
callers-append requests (x ∷ xs) ys =
    ap (λ l. (requests x).my_chroutine ∷ l) (callers-append requests xs ys)

handles-append :
    (requests : ℕ → Request) (xs ys : List ℕ)
    → handles requests (xs ++ ys) ≡ handles requests xs ++ handles requests ys
handles-append requests [] ys = refl
handles-append requests (x ∷ xs) ys =
    ap (λ l. handle_of (requests x) ∷ l) (handles-append requests xs ys)

AllReady-snoc :
    (requests : ℕ → Request) (xs : List ℕ) (p : ℕ)
    → AllReady requests xs
    → Ready (requests p) p
    → AllReady requests (xs ++ p ∷ [])
AllReady-snoc requests [] p ready last = (last, tt)
AllReady-snoc requests (x ∷ xs) p ready last = (ready.0, AllReady-snoc requests xs p ready.1 last)

pub pushed-IsLive :
    (p : ℕ) (r : Request) (s : Stub)
    → IsLive s
    → contains p (live s) ≡ false
    → contains (handle_of r) (keys s.doing ++ handles s.requests s.todo) ≡ false
    → Ready r p
    → IsLive (pushed p r s)
pushed-IsLive p r s l absent new ready =
    let requests = (pushed p r s).requests in
    let alike = put-Alike p r s (live s) absent in
    let todo_alike = Alike-back s.requests requests (values s.doing) s.todo alike in
    record {
      ready = subst (AllReady requests) (append_assoc (values s.doing) s.todo (p ∷ [])) (
          AllReady-snoc requests (live s) p
            (AllReady-Alike s.requests requests (live s) alike l.ready)
            (subst (λ q. Ready q p) (sym (put_self p r s)) ready));
      keyed =
          Keyed-Alike s.requests requests s.doing
            (Alike-front s.requests requests (values s.doing) s.todo alike) l.keyed;
      apart =
          subst Distinct
            (append_assoc (keys s.doing) (handles s.requests s.todo) (handle_of r ∷ [])
              ∙ ap (λ hs. keys s.doing ++ hs)
                  (ap₂ (λ xs q. xs ++ handle_of q ∷ [])
                      (sym (handles-Alike s.requests requests s.todo todo_alike))
                      (sym (put_self p r s))
                    ∙ sym (handles-append requests s.todo (p ∷ []))))
            (Distinct-snoc (handle_of r) (keys s.doing ++ handles s.requests s.todo) l.apart new);
    }

pub pushed-owed :
    (p : ℕ) (r : Request) (s : Stub)
    → contains p (live s) ≡ false
    → (c : ℕ) → count c (owed (pushed p r s)) ≡ count c (owed s) + count c (r.my_chroutine ∷ [])
pushed-owed p r s absent c =
    let requests = (pushed p r s).requests in
    let all_callers =
      ap (callers requests) (sym (append_assoc (values s.doing) s.todo (p ∷ [])))
      ∙ callers-append requests (live s) (p ∷ [])
      ∙ ap₂ (λ xs (q : Request). xs ++ q.my_chroutine ∷ [])
          (callers-Alike s.requests requests (live s) (put-Alike p r s (live s) absent))
          (put_self p r s) in
    ap (λ xs. count c (s.awoken ++ xs)) all_callers
    ∙ omega (
      arith,
      count-append c s.awoken (callers s.requests (live s) ++ r.my_chroutine ∷ []),
      count-append c (callers s.requests (live s)) (r.my_chroutine ∷ []),
      count-append c s.awoken (callers s.requests (live s)),
    )
