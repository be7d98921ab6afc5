-- ===== src/Http/Request/Laws.antt =====
-- What the setters of net/http_client/curl_req.cpp leave as it is: all but the settings.
use chroutine.Prelude.{ℕ, ◌≡◌, ◌∙◌, List, [], ◌∷◌, ◌++◌, arith}
use chroutine.Prelude.Int.{ℤ, pos}
use chroutine.Http.Request.{
  Request, Code, Setting, url, connect_timeout_ms, timeout_ms, write_data, write_function, set_one,
  set_url, set_connect_timeout, set_timeout, set_data_slot, make_default_opts,
}

-- A view of the request that does not see its settings.
abbrev pub Blind {ℓ} : {A : Type ℓ} → (Request → A) → Type ℓ
Blind f = (settings : List Setting) (r : Request) → f (record r { settings = settings }) ≡ f r

module _ {A : Type 0} (f : Request → A) (blind : Blind f) (answer : Code) where
  kept-set_one : (s : Setting) (r : Request) → f (set_one answer s r).1 ≡ f r
  unfolding set_one
  kept-set_one s r = ground (arith, blind (r.settings ++ s ∷ []) r)

  pub kept-set_url : (u : List ℕ) (r : Request) → f (set_url answer u r).1 ≡ f r
  unfolding set_url
  kept-set_url u r = kept-set_one (url u) r

  pub kept-set_timeout : (ms : ℤ) (r : Request) → f (set_timeout answer ms r).1 ≡ f r
  unfolding set_timeout
  kept-set_timeout ms r = kept-set_one (timeout_ms ms) r

  pub kept-set_connect_timeout :
      (ms : ℤ) (r : Request) → f (set_connect_timeout answer ms r).1 ≡ f r
  unfolding set_connect_timeout
  kept-set_connect_timeout ms r = kept-set_one (connect_timeout_ms ms) r

  pub kept-set_data_slot :
      (func handler : ℕ) (r : Request) → f (set_data_slot answer func handler r).1 ≡ f r
  unfolding set_data_slot
  kept-set_data_slot func handler r =
      ground (arith, blind ((r.settings ++ write_data handler ∷ []) ++ write_function func ∷ []) r)

  pub kept-make_default_opts :
      (func handler : ℕ) (r : Request) → f (make_default_opts answer func handler r) ≡ f r
  unfolding make_default_opts
  kept-make_default_opts func handler r =
      kept-set_data_slot func handler
        (set_timeout answer (pos 60000) (set_connect_timeout answer (pos 30000) r).1).1
      ∙ kept-set_timeout (pos 60000) (set_connect_timeout answer (pos 30000) r).1
      ∙ kept-set_connect_timeout (pos 30000) r
