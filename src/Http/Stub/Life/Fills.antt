-- ===== src/Http/Stub/Life/Fills.antt =====
-- How `add_todo_to_doing` of net/http_client/curl_stub.cpp carries the live requests.
use chroutine.Prelude.{
  ℕ, ◌≡◌, refl, sym, ap, ◌∙◌, inl, inr, none, List, [], ◌∷◌, ◌++◌, append_assoc, length, subst,
  arith, Bool-cases, ltb,
}
use chroutine.Prelude.Ids.{Distinct, contains-append}
use chroutine.Http.Request.{Request}
use chroutine.Http.Stub.{Stub, max_concurrent, find, fill}
use chroutine.Http.Stub.Filling.{handle_of, handles, entered, attach-entered}
use chroutine.Http.Stub.Life.{keys, values, live, Ready, AllReady, Keyed}

-- Filling moves a request from the front of the queue to the end of the table.
values-snoc : (m : List (ℕ × ℕ)) (h p : ℕ) → values (m ++ (h, p) ∷ []) ≡ values m ++ p ∷ []
values-snoc [] h p = refl
values-snoc ((k, q) ∷ m) h p = ap (λ l. q ∷ l) (values-snoc m h p)

keys-snoc : (m : List (ℕ × ℕ)) (h p : ℕ) → keys (m ++ (h, p) ∷ []) ≡ keys m ++ h ∷ []
keys-snoc [] h p = refl
keys-snoc ((k, q) ∷ m) h p = ap (λ l. k ∷ l) (keys-snoc m h p)

Keyed-snoc :
    (requests : ℕ → Request) (m : List (ℕ × ℕ)) (p : ℕ)
    → Keyed requests m
    → Keyed requests (m ++ (handle_of (requests p), p) ∷ [])
Keyed-snoc requests [] p keyed = (refl, tt)
Keyed-snoc requests ((k, q) ∷ m) p keyed = (keyed.0, Keyed-snoc requests m p keyed.1)

find_absent :
    (h : ℕ) (m : List (ℕ × ℕ)) (hs : List ℕ) → Distinct (keys m ++ h ∷ hs) → find h m ≡ none
unfolding find
find_absent h [] hs apart = refl
find_absent h ((k, q) ∷ m) hs apart =
    ground (arith, contains-append k (keys m) (h ∷ hs), find_absent h m hs apart.1)

AllReady-middle :
    (requests : ℕ → Request) (xs : List ℕ) (p : ℕ) (ys : List ℕ)
    → AllReady requests (xs ++ p ∷ ys)
    → Ready (requests p) p
AllReady-middle requests [] p ys ready = ready.0
AllReady-middle requests (x ∷ xs) p ys ready = AllReady-middle requests xs p ys ready.1

-- Over a queue `ps` the stub `t` has got the requests that the stub `s` had.
abbrev pub Carries : List ℕ → Stub → Stub → Type 0
Carries ps s t =
    (live t ≡ values s.doing ++ ps)
    × (keys t.doing ++ handles s.requests t.todo ≡ keys s.doing ++ handles s.requests ps)
    × (t.requests ≡ s.requests)
    × (t.awoken ≡ s.awoken)
    × Keyed s.requests t.doing

values-entered :
    (p : ℕ) (ps : List ℕ) (s : Stub) → values (entered p s).doing ++ ps ≡ values s.doing ++ p ∷ ps
values-entered p ps s =
    ap (λ l. l ++ ps) (values-snoc s.doing (handle_of (s.requests p)) p)
    ∙ append_assoc (values s.doing) (p ∷ []) ps

keys-entered :
    (p : ℕ) (ps : List ℕ) (s : Stub)
    → keys (entered p s).doing ++ handles s.requests ps
      ≡ keys s.doing ++ handles s.requests (p ∷ ps)
keys-entered p ps s =
    ap (λ l. l ++ handles s.requests ps) (keys-snoc s.doing (handle_of (s.requests p)) p)
    ∙ append_assoc (keys s.doing) (handle_of (s.requests p) ∷ []) (handles s.requests ps)

Carries-entered :
    (p : ℕ) (ps : List ℕ) (s t : Stub) → Carries ps (entered p s) t → Carries (p ∷ ps) s t
Carries-entered p ps s t (all_live, all_keys, same, woken, keyed) =
    (all_live ∙ values-entered p ps s, all_keys ∙ keys-entered p ps s, same, woken, keyed)

pub fill-Carries :
    (ps : List ℕ) (s : Stub)
    → AllReady s.requests (values s.doing ++ ps)
    → Keyed s.requests s.doing
    → Distinct (keys s.doing ++ handles s.requests ps)
    → Carries ps s (fill ps s)
unfolding fill
fill-Carries [] s ready keyed apart = (refl, refl, refl, refl, keyed)
fill-Carries (p ∷ ps) s ready keyed apart =
    elim (Bool-cases (ltb (length s.doing) max_concurrent)) [
      | inr no_room ↦ simp no_room (refl, refl, refl, refl, keyed)
      | inl room ↦ simp room (
          let (there, has_handle, known) = AllReady-middle s.requests (values s.doing) p ps ready in
          let fresh =
            find_absent (handle_of (s.requests p)) s.doing (handles s.requests ps) apart in
          subst (λ t. Carries (p ∷ ps) s (fill ps t))
            (sym (attach-entered p s there has_handle fresh))
            (Carries-entered p ps s (fill ps (entered p s)) (
              fill-Carries ps (entered p s)
                (subst (AllReady s.requests) (sym (values-entered p ps s)) ready)
                (Keyed-snoc s.requests s.doing p keyed)
                (subst Distinct (sym (keys-entered p ps s)) apart))))
    ]
