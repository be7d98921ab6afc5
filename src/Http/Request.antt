-- ===== src/Http/Request.antt =====
-- net/http_client/curl_req.hpp and .cpp: `curl_req_t` and `curl_rsp_t`. What is set at libcurl's handle
-- is listed, and `answer` is what `curl_easy_setopt` returns for it.
pub mod Laws
use chroutine.Prelude.{
  ℕ, Bool, true, false, Option, none, some, List, [], ◌∷◌, ◌++◌, length, is_nil, ◌==◌,
  if◌then◌else◌,
}
use chroutine.Prelude.Int.{ℤ, pos, negsuc}
use chroutine.Chroutine.{invalid_id}

-- The options that the program sets, with their values.
pub data Setting : Type 0 where
  http_get : Setting
  url : List ℕ → Setting
  connect_timeout_ms timeout_ms : ℤ → Setting
  write_data write_function : ℕ → Setting
  post : Setting
  post_field_size : ℕ → Setting
  post_fields : List ℕ → Setting

-- A `CURLcode`: `CURLE_FAILED_INIT` of the guards, or what libcurl returns.
pub data Code : Type 0 where
  failed_init : Code
  code : ℕ → Code

pub data ReqType : Type 0 where
  type_get type_post : ReqType

-- `curl_rsp_t`, whose `buf` is none for the null pointer.
pub record Response : Type 0 where
  pub buf : Option ℕ
  pub rsp_code : ℤ
  pub data_result : ℤ

abbrev pub new_rsp : Response
new_rsp = record { buf = none; rsp_code = negsuc 0; data_result = negsuc 0 }

-- `curl_req_t`. `curl_ptr` is none for the null handle; `settings` is what was set at it, in order.
pub record Request : Type 0 where
  pub curl_ptr : Option ℕ
  pub type : ReqType
  pub req_id : ℕ
  pub rsp : Response
  pub my_chroutine : ℕ
  pub post_buf : Option (List ℕ)
  pub settings : List Setting

abbrev pub put_setting : Setting → Request → Request
put_setting s r = record r { settings = r.settings ++ s ∷ [] }

-- `new_curl_req(req_id)`, with what `curl_easy_init` returns.
unfoldable pub new_curl_req : ℕ → Option ℕ → Request
new_curl_req req_id handle = record {
  curl_ptr = handle;
  type = type_get;
  req_id = req_id;
  rsp = new_rsp;
  my_chroutine = invalid_id;
  post_buf = none;
  settings = elim handle [ none ↦ [] | some h ↦ http_get ∷ [] ];
}

-- The body that `set_url`, `set_connect_timeout` and `set_timeout` share.
set_one : Code → Setting → Request → Code × Request
set_one answer s r = elim r.curl_ptr [
  | none ↦ (failed_init, r)
  | some h ↦ (answer, put_setting s r)
]

pub set_url : Code → List ℕ → Request → Code × Request
unfolding set_one
set_url answer str_url r = set_one answer (url str_url) r

pub set_connect_timeout : Code → ℤ → Request → Code × Request
unfolding set_one
set_connect_timeout answer ms r = set_one answer (connect_timeout_ms ms) r

pub set_timeout : Code → ℤ → Request → Code × Request
unfolding set_one
set_timeout answer ms r = set_one answer (timeout_ms ms) r

pub set_data_slot : Code → ℕ → ℕ → Request → Code × Request
set_data_slot answer func func_handler r = elim r.curl_ptr [
  | none ↦ (failed_init, r)
  | some h ↦ (answer, put_setting (write_function func) (put_setting (write_data func_handler) r))
]

-- What libcurl does with the null handle in `set_post_data` is to return an error.
put_handle : List Setting → Request → Request
put_handle settings r = elim r.curl_ptr [
  | none ↦ r
  | some h ↦ record r { settings = r.settings ++ settings }
]

-- `set_post_data(data, len)`; a null pointer or the length 0 is the empty list.
pub set_post_data : List ℕ → Request → Request
unfolding put_handle
set_post_data [] r = r
set_post_data (b ∷ bs) r =
    put_handle (post ∷ post_field_size (length (b ∷ bs)) ∷ post_fields (b ∷ bs) ∷ [])
      (record r { type = type_post; post_buf = some (b ∷ bs) })

-- `execute_sync()`, where `answer` is what `curl_easy_perform` returns.
pub execute_sync : Code → Request → Code
execute_sync answer r = elim r.curl_ptr [ none ↦ failed_init | some h ↦ answer ]

-- `make_default_opts()`, with the addresses of `write_rsp_data_func` and of the response.
pub make_default_opts : Code → ℕ → ℕ → Request → Request
make_default_opts answer func rsp_address r =
    (set_data_slot answer func rsp_address
      (set_timeout answer (pos 60000) (set_connect_timeout answer (pos 30000) r).1).1).1

-- `on_rsp(rsp_code, data_result)`: the chroutines that it wakes, and the request.
unfoldable pub on_rsp : ℤ → ℤ → Request → List ℕ × Request
on_rsp rsp_code data_result r = (
  if r.my_chroutine == invalid_id then [] else r.my_chroutine ∷ [],
  record r { rsp = record r.rsp { rsp_code = rsp_code; data_result = data_result } },
)

-- `curl_rsp_t(curl_rsp_t &&)`: the new response, and what is left of the other.
unfoldable pub move_rsp : Response → Response × Response
move_rsp other = (other, record other { buf = none })
