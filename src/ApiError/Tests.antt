-- ===== src/ApiError/Tests.antt =====
-- Errors of backends, as the HTTP client and the adapters word them.
use inferencia.Common.{◌≡◌, refl, Char, false, none, some}
use inferencia.ApiError.{
  Error, GoError, backend_overloaded, from_backend_error, is_client_timeout,
  is_connection_unavailable, upstream_http_status,
}
use inferencia.ApiError.Classes.{IsTimedOut, IsBusy, IsOneOf, from_backend_error-IsOneOf}

abbrev same : Char → Char
same c = c

abbrev busy : GoError
busy = record {
  is_deadline_exceeded = false;
  net_timeout = none;
  is_op_error = false;
  text = "mlx returned status 429: Too Many Requests";
}

busy_overloaded : from_backend_error same "mlx" (some busy) ≡ some (backend_overloaded "mlx")
unfolding from_backend_error is_client_timeout is_connection_unavailable upstream_http_status
busy_overloaded = refl

from_backend_error-IsOneOf_example :
    (e : Error) × (from_backend_error same "mlx" (some busy) ≡ some e)
    × IsOneOf "mlx" (IsTimedOut same busy) (IsBusy same busy) e
from_backend_error-IsOneOf_example = from_backend_error-IsOneOf same busy "mlx"
