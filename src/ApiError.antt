-- ===== src/ApiError.antt =====
-- internal/apierror: the errors of the API (error.go) and what a backend's error becomes
-- (classify.go). `lower` is Go's table of lower-case letters beyond ASCII.
pub mod Phrases
pub mod Classes
mod Tests
use Prim.Native.String.{◌++◌}
use inferencia.Common.{
  ℕ, String, Char, Bool, true, false, ◌||◌, ◌==◌, Option, none, some, eqb, if◌then◌else◌, ℤ, pos,
  negsuc, contains, until, after, ends_status, to_lower, trim_space, atoi,
}

-- An empty `code` or `param` is left out of the JSON.
pub record Error : Type 0 where
  pub status : ℕ
  pub message : String
  pub type : String
  pub code : String
  pub param : String

abbrev pub type_invalid_request : String
type_invalid_request = "invalid_request_error"

abbrev pub type_authentication : String
type_authentication = "authentication_error"

abbrev pub type_rate_limit : String
type_rate_limit = "rate_limit_error"

abbrev pub type_server : String
type_server = "server_error"

abbrev pub type_backend_down : String
type_backend_down = "backend_error"

abbrev pub invalid_request : String → Error
invalid_request msg = record {
  status = 400;
  message = msg;
  type = type_invalid_request;
  code = "";
  param = "";
}

abbrev pub invalid_param : String → String → Error
invalid_param param msg = record {
  status = 400;
  message = msg;
  type = type_invalid_request;
  code = "";
  param = param;
}

abbrev pub unauthorized : String → Error
unauthorized msg = record {
  status = 401;
  message = msg;
  type = type_authentication;
  code = "invalid_api_key";
  param = "";
}

abbrev pub rate_limited : Error
rate_limited = record {
  status = 429;
  message = "Rate limit exceeded. Please retry after a brief wait.";
  type = type_rate_limit;
  code = "rate_limit_exceeded";
  param = "";
}

abbrev pub backend_unavailable : String → Error
backend_unavailable backend = record {
  status = 503;
  message = "Backend " ++ backend ++ " is currently unavailable.";
  type = type_backend_down;
  code = "backend_unavailable";
  param = "";
}

abbrev pub internal : String → Error
internal msg = record { status = 500; message = msg; type = type_server; code = ""; param = "" }

abbrev pub backend_timeout : String → Error
backend_timeout backend = record {
  status = 504;
  message = "Backend " ++ backend ++ " timed out.";
  type = type_backend_down;
  code = "backend_timeout";
  param = "";
}

abbrev pub backend_overloaded : String → Error
backend_overloaded backend = record {
  status = 503;
  message = "Backend " ++ backend ++ " is overloaded. Please retry shortly.";
  type = type_backend_down;
  code = "backend_overloaded";
  param = "";
}

-- What the code asks of a Go error: whether `errors.Is` finds `context.DeadlineExceeded` in it,
-- the `Timeout()` of the `net.Error` that `errors.As` finds, if any, whether it finds a
-- `*net.OpError`, and `Error()`.
pub record GoError : Type 0 where
  pub is_deadline_exceeded : Bool
  pub net_timeout : Option Bool
  pub is_op_error : Bool
  pub text : String

abbrev pub is_status : ℕ → Option ℤ → Bool
is_status n none = false
is_status n (some (pos m)) = eqb m n
is_status n (some (negsuc m)) = false

module _ (lower : Char → Char) where
  unfoldable pub is_client_timeout : GoError → Bool
  is_client_timeout err =
      let msg = to_lower lower err.text in
      contains msg "client.timeout exceeded"
      || contains msg "context deadline exceeded"
      || contains msg "i/o timeout"
      || contains msg "timeout awaiting response headers"

  abbrev pub net_error_timed_out : Option Bool → Bool
  net_error_timed_out none = false
  net_error_timed_out (some timeout) = timeout

  unfoldable pub is_connection_unavailable : GoError → Bool
  is_connection_unavailable err =
      let msg = to_lower lower err.text in
      if net_error_timed_out err.net_timeout
      then false
      else if err.is_op_error
      then true
      else contains msg "connection refused"
        || contains msg "no such host"
        || contains msg "network is unreachable"
        || contains msg "connection reset"
        || contains msg "dial tcp"

  unfoldable pub is_overload_message : String → Bool
  is_overload_message msg =
      let lowered = to_lower lower msg in
      contains lowered "server busy"
      || contains lowered "too many requests"
      || contains lowered "overloaded"
      || contains lowered "rate limit"

  -- The number after the first "status " of the message, up to a colon or a space.
  unfoldable pub upstream_http_status : GoError → Option ℤ
  upstream_http_status err = elim (after "status " err.text) [
    | none ↦ none
    | some rest ↦ atoi (trim_space (until ends_status rest))
  ]

  unfoldable pub from_backend_error : String → Option GoError → Option Error
  from_backend_error backend none = none
  from_backend_error backend (some err) =
      let status = upstream_http_status err in
      some (
        if err.is_deadline_exceeded || is_client_timeout err
        then backend_timeout backend
        else if is_connection_unavailable err
        then backend_unavailable backend
        else if is_status 429 status || is_status 502 status || is_status 503 status
        then backend_overloaded backend
        else if is_status 504 status
        then backend_timeout backend
        else if is_overload_message err.text
        then backend_overloaded backend
        else backend_unavailable backend)
