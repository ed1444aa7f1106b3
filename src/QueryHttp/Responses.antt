-- ===== src/QueryHttp/Responses.antt =====
-- crates/query-http-common/src/lib.rs: responses and the JSON envelope of an error.
use Prim.Native.String.{◌++◌ as append}
use kaleidoscope.Prelude.{ℕ, String, Option, none, some}

pub data Body (A : Type 0) : Type 0 where
  error_body : String → Body A
  payload : A → Body A

-- The status code, the header `WWW-Authenticate` and the body.
pub record Response (A : Type 0) : Type 0 where
  pub status : ℕ
  pub www_authenticate : Option String
  pub body : Body A

abbrev pub bad_request : ℕ
bad_request = 400

abbrev pub unauthorized : ℕ
unauthorized = 401

abbrev pub internal_server_error : ℕ
internal_server_error = 500

abbrev pub max_window_seconds : ℕ
max_window_seconds = 86400

abbrev pub max_result_rows : ℕ
max_result_rows = 100000

abbrev pub reason_invalid_time_range : String
reason_invalid_time_range = "invalid time bounds: end is earlier than start"

abbrev pub reason_window_too_large : String
reason_window_too_large = "window exceeds 86400 seconds"

abbrev pub reason_too_many_rows : String
reason_too_many_rows = "result exceeds 100000 rows"

abbrev pub reason_missing_tenant : String
reason_missing_tenant = "no tenant resolvable: "

module _ {A : Type 0} where
  unfoldable pub error_response : ℕ → String → Response A
  error_response status reason = record {
    status = status;
    www_authenticate = none;
    body = error_body reason;
  }

  unfoldable pub reject_unauthorized : String → Response A
  unfolding error_response
  reject_unauthorized reason = record (error_response unauthorized reason) {
    www_authenticate =
        some (append "Bearer error=\"invalid_token\", error_description=\"" (append reason "\""));
  }
