-- ===== src/Http/Stub/Life/Cleans.antt =====
-- How `read_and_clean` of net/http_client/curl_stub.cpp turns a live request into a woken chroutine.
use chroutine.Prelude.{
  ℕ, ◌+◌, ◌≡◌, refl, sym, ap, ap₂, ◌∙◌, inl, inr, true, false, none, some, List, [], ◌∷◌, ◌++◌,
  subst, ◌==◌, ==_iff, if◌then◌else◌, arith, Bool, Bool-cases, Option-cases,
}
use chroutine.Prelude.Int.{ℤ}
use chroutine.Prelude.Ids.{contains, Distinct, count, count-append, contains-append}
use chroutine.Chroutine.{invalid_id}
use chroutine.Http.Request.{Request, on_rsp}
use chroutine.Http.Stub.{Stub, Message, find, erase, settle, clean, answer, read_and_clean}
use chroutine.Http.Stub.Filling.{handle_of, handles}
use chroutine.Http.Stub.Answers.{clean-answered, erase_missing}
use chroutine.Http.Stub.Life.{keys, values, live, callers, owed, Ready, AllReady, Keyed, IsLive}

-- Two memories have the same handles and chroutines at the addresses of a list.
abbrev pub Alike : (ℕ → Request) → (ℕ → Request) → List ℕ → Type 0
Alike old new [] = Unit
Alike old new (p ∷ ps) =
    ((new p).curl_ptr ≡ (old p).curl_ptr)
    × ((new p).my_chroutine ≡ (old p).my_chroutine)
    × Alike old new ps

module _ (old new : ℕ → Request) where
  pub callers-Alike : (ps : List ℕ) → Alike old new ps → callers new ps ≡ callers old ps
  callers-Alike [] alike = refl
  callers-Alike (p ∷ ps) (handle, caller, alike) =
      ap₂ (λ c l. c ∷ l) caller (callers-Alike ps alike)

  pub handle_of-Alike :
      (p : ℕ) → (new p).curl_ptr ≡ (old p).curl_ptr → handle_of (new p) ≡ handle_of (old p)
  handle_of-Alike p same = ap (λ o. elim o [ none ↦ 0 | some h ↦ h ]) same

  pub handles-Alike : (ps : List ℕ) → Alike old new ps → handles new ps ≡ handles old ps
  handles-Alike [] alike = refl
  handles-Alike (p ∷ ps) (handle, caller, alike) =
      ap₂ (λ c l. c ∷ l) (handle_of-Alike p handle) (handles-Alike ps alike)

  pub AllReady-Alike : (ps : List ℕ) → Alike old new ps → AllReady old ps → AllReady new ps
  AllReady-Alike [] alike ready = tt
  AllReady-Alike (p ∷ ps) (handle, caller, alike) (first, rest) = (
    (
      first.0,
      handle ∙ first.1 ∙ ap some (sym (handle_of-Alike p handle)),
      ap (λ c. c == invalid_id) caller ∙ first.2,
    ),
    AllReady-Alike ps alike rest,
  )

  pub Keyed-Alike : (m : List (ℕ × ℕ)) → Alike old new (values m) → Keyed old m → Keyed new m
  Keyed-Alike [] alike keyed = tt
  Keyed-Alike ((h, p) ∷ m) (handle, caller, alike) keyed =
      (handle_of-Alike p handle ∙ keyed.0, Keyed-Alike m alike keyed.1)

  pub Alike-back : (xs ys : List ℕ) → Alike old new (xs ++ ys) → Alike old new ys
  Alike-back [] ys alike = alike
  Alike-back (x ∷ xs) ys alike = Alike-back xs ys alike.2

  pub Alike-front : (xs ys : List ℕ) → Alike old new (xs ++ ys) → Alike old new xs
  Alike-front [] ys alike = tt
  Alike-front (x ∷ xs) ys alike = (alike.0, alike.1, Alike-front xs ys alike.2)

module _ (h : ℕ) where
  AllReady-erase :
      (requests : ℕ → Request) (m : List (ℕ × ℕ)) (ps : List ℕ)
      → AllReady requests (values m ++ ps)
      → AllReady requests (values (erase h m) ++ ps)
  unfolding erase
  AllReady-erase requests [] ps ready = ready
  AllReady-erase requests ((k, q) ∷ m) ps ready =
      ground (arith, AllReady-erase requests m ps ready.1)

  Keyed-erase :
      (requests : ℕ → Request) (m : List (ℕ × ℕ)) → Keyed requests m → Keyed requests (erase h m)
  unfolding erase
  Keyed-erase requests [] keyed = tt
  Keyed-erase requests ((k, q) ∷ m) keyed = ground (arith, Keyed-erase requests m keyed.1)

  contains-erase :
      (i : ℕ) (m : List (ℕ × ℕ)) (hs : List ℕ)
      → contains i (keys m ++ hs) ≡ false
      → contains i (keys (erase h m) ++ hs) ≡ false
  unfolding erase
  contains-erase i [] hs absent = absent
  contains-erase i ((k, q) ∷ m) hs absent = ground (arith, contains-erase i m hs)

  Distinct-erase :
      (m : List (ℕ × ℕ)) (hs : List ℕ) → Distinct (keys m ++ hs) → Distinct (keys (erase h m) ++ hs)
  unfolding erase
  Distinct-erase [] hs apart = apart
  Distinct-erase ((k, q) ∷ m) hs apart =
      ground (arith, Distinct-erase m hs apart.1, contains-erase k m hs apart.0)

  find_key : (m : List (ℕ × ℕ)) → contains h (keys m) ≡ false → find h m ≡ none
  unfolding find
  find_key [] absent = refl
  find_key ((k, q) ∷ m) absent = ground (arith, find_key m)

  -- Erasing the entry that is found takes just its caller.
  count-erase :
      (c : ℕ) (requests : ℕ → Request) (m : List (ℕ × ℕ)) (hs ps : List ℕ) (p : ℕ)
      → Distinct (keys m ++ hs)
      → find h m ≡ some p
      → count c (callers requests (values m ++ ps))
        ≡ count c ((requests p).my_chroutine ∷ [])
          + count c (callers requests (values (erase h m) ++ ps))
  unfolding find erase
  count-erase c requests [] hs ps p apart there = cc
  count-erase c requests ((k, q) ∷ m) hs ps p apart there = elim (Bool-cases (k == h)) [
    | inl same ↦
        let missing = erase_missing h m (
          find_key m
            (ground (arith, contains-append k (keys m) hs, apart.0, (==_iff k h).0 same))) in
        ground (arith, same, there, missing)
    | inr differs ↦ ground (arith, differs, count-erase c requests m hs ps p apart.1)
  ]

find-Ready :
    (requests : ℕ → Request) (h p : ℕ) (m : List (ℕ × ℕ)) (ps : List ℕ)
    → AllReady requests (values m ++ ps)
    → find h m ≡ some p
    → Ready (requests p) p
unfolding find
find-Ready requests h p [] ps ready there = cc
find-Ready requests h p ((k, q) ∷ m) ps ready there =
    ground (arith, ready.0, find-Ready requests h p m ps ready.1)

-- An answer leaves the handles and the callers of all requests as they are.
kept-answer :
    {A : Type 0} (f : Request → A)
    → ((r : Request) (code result : ℤ) → f (on_rsp code result r).1 ≡ f r)
    → (m : Message) (p : ℕ) (s : Stub) (a : ℕ) → f ((answer m p s).requests a) ≡ f (s.requests a)
unfolding answer
kept-answer f blind m p s a = elim (Bool-cases (a == p)) [
  | inl same ↦ simp same (
      blind (s.requests p) m.rsp_code m.result
      ∙ ap (λ b. f (s.requests b)) (sym ((==_iff a p).0 same)))
  | inr differs ↦ simp differs refl
]

answer-Alike :
    (m : Message) (p : ℕ) (s : Stub) (ps : List ℕ) → Alike s.requests (answer m p s).requests ps
unfolding on_rsp
answer-Alike m p s [] = tt
answer-Alike m p s (a ∷ ps) = (
  kept-answer (λ r. r.curl_ptr) (λ r code result. refl) m p s a,
  kept-answer (λ r. r.my_chroutine) (λ r code result. refl) m p s a,
  answer-Alike m p s ps,
)

-- The stub is well-formed, and owes each chroutine as often as the other stub.
abbrev pub Owes : Stub → Stub → Type 0
Owes s t = IsLive t × ((c : ℕ) → count c (owed t) ≡ count c (owed s))

abbrev answered : Message → ℕ → Stub → Stub
answered m p s = record (answer m p s) { doing = erase m.easy_handle s.doing }

todo-answer : (m : Message) (p : ℕ) (s : Stub) → (answer m p s).todo ≡ s.todo
unfolding answer
todo-answer m p s = refl

awoken-answer :
    (m : Message) (p : ℕ) (s : Stub)
    → ((s.requests p).my_chroutine == invalid_id) ≡ false
    → (answer m p s).awoken ≡ s.awoken ++ (s.requests p).my_chroutine ∷ []
unfolding answer on_rsp
awoken-answer m p s known =
    ap (λ b. s.awoken ++ (if b then [] else (s.requests p).my_chroutine ∷ [])) known

answered-IsLive : (m : Message) (p : ℕ) (s : Stub) → IsLive s → IsLive (answered m p s)
unfolding answer
answered-IsLive m p s l =
    let alike = answer-Alike m p s in
    let left = erase m.easy_handle s.doing in
    let requests = (answer m p s).requests in
    record {
      ready =
          AllReady-Alike s.requests requests (values left ++ s.todo) (alike (values left ++ s.todo))
            (AllReady-erase m.easy_handle s.requests s.doing s.todo l.ready);
      keyed =
          Keyed-Alike s.requests requests left (alike (values left))
            (Keyed-erase m.easy_handle s.requests s.doing l.keyed);
      apart =
          subst (λ hs. Distinct (keys left ++ hs))
            (sym (handles-Alike s.requests requests s.todo (alike s.todo)))
            (Distinct-erase m.easy_handle s.doing (handles s.requests s.todo) l.apart);
    }

answered-owed :
    (m : Message) (p : ℕ) (s : Stub)
    → IsLive s
    → find m.easy_handle s.doing ≡ some p
    → ((s.requests p).my_chroutine == invalid_id) ≡ false
    → (c : ℕ) → count c (owed (answered m p s)) ≡ count c (owed s)
unfolding answer
answered-owed m p s l there known c =
    let left = values (erase m.easy_handle s.doing) ++ s.todo in
    let woken = awoken-answer m p s known in
    let same = callers-Alike s.requests (answer m p s).requests left (answer-Alike m p s left) in
    ap₂ (λ xs ys. count c (xs ++ ys)) woken same
    ∙ omega (
      arith,
      count-append c (s.awoken ++ (s.requests p).my_chroutine ∷ []) (callers s.requests left),
      count-append c s.awoken ((s.requests p).my_chroutine ∷ []),
      count-append c s.awoken (callers s.requests (live s)),
      count-erase m.easy_handle c s.requests s.doing (handles s.requests s.todo) s.todo p l.apart
          there,
    )

clean_missing : (m : Message) (s : Stub) → find m.easy_handle s.doing ≡ none → clean m s ≡ s
unfolding clean settle
clean_missing m s missing =
    ap (λ f. if m.is_done then settle m f s else s) missing ∙ if_same m.is_done s
  where
    if_same : (b : Bool) (t : Stub) → (if b then t else t) ≡ t
    if_same true t = refl
    if_same false t = refl

pub clean-Owes : (m : Message) (s : Stub) → IsLive s → Owes s (clean m s)
unfolding clean
clean-Owes m s l = elim (Bool-cases m.is_done) [
  | inr other ↦ simp other (l, λ c. refl)
  | inl done ↦ elim (Option-cases (find m.easy_handle s.doing)) [
    | inl missing ↦ subst (Owes s) (sym (clean_missing m s missing)) (l, λ c. refl)
    | inr (p, there) ↦
        let (object, handle, known) =
          find-Ready s.requests m.easy_handle p s.doing s.todo l.ready there in
        subst (Owes s) (sym (clean-answered m p s done there object))
          (answered-IsLive m p s l, answered-owed m p s l there known)
  ]
]

pub read_and_clean-Owes : (ms : List Message) (s : Stub) → IsLive s → Owes s (read_and_clean ms s)
unfolding read_and_clean
read_and_clean-Owes [] s l = (l, λ c. refl)
read_and_clean-Owes (m ∷ ms) s l =
    let (next, first) = clean-Owes m s l in
    let (last, rest) = read_and_clean-Owes ms (clean m s) next in (last, λ c. rest c ∙ first c)
