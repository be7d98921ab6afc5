-- ===== src/Http/Stub/Prepared.antt =====
-- The request that `exec_curl` of net/http_client/curl_stub.cpp makes: the setters that it calls touch
-- nothing but the settings.
use chroutine.Prelude.{ℕ, ◌≡◌, Option, arith}
use chroutine.Http.Request.{
  Request, Code, set_connect_timeout, set_url, make_default_opts, new_curl_req,
}
use chroutine.Http.Request.Laws.{
  Blind, kept-set_connect_timeout, kept-set_timeout, kept-set_url, kept-set_data_slot,
  kept-make_default_opts,
}
use chroutine.Http.Stub.{Order, set_timeouts, prepare}

-- The new request, before the setters.
abbrev pub made_request : ℕ → Option ℕ → Request
made_request chroutine_id handle = record (new_curl_req 0 handle) { my_chroutine = chroutine_id }

module _ {A : Type 0} (f : Request → A) (blind : Blind f) (set : Code) (o : Order) where
  kept-set_timeouts : (r : Request) → f (set_timeouts set o r) ≡ f r
  unfolding set_timeouts
  kept-set_timeouts r = ground (
    arith,
    kept-set_connect_timeout f blind set o.connect_timeout r,
    kept-set_timeout f blind set o.timeout r,
    kept-set_timeout f blind set o.timeout (set_connect_timeout set o.connect_timeout r).1,
  )

  pub kept-prepare :
      (func rsp_address chroutine_id : ℕ) (handle : Option ℕ)
      → f (prepare set func rsp_address chroutine_id handle o)
        ≡ f (made_request chroutine_id handle)
  unfolding prepare
  kept-prepare func rsp_address chroutine_id handle =
      let new = made_request chroutine_id handle in
      let defaults = make_default_opts set func rsp_address new in
      let opened = (set_url set o.url defaults).1 in
      ground (
        arith,
        kept-set_data_slot f blind set o.w_func o.w_func_handler (set_timeouts set o opened),
        kept-set_timeouts opened,
        kept-set_url f blind set o.url defaults,
        kept-make_default_opts f blind set func rsp_address new,
      )
