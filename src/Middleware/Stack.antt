-- ===== src/Middleware/Stack.antt =====
-- The whole stack of internal/server/server.go and cmd/inferencia/main.go: requestid.go, recover.go,
-- metrics.go and logging.go outside authentication and limit. The clock is left out, with the
-- durations that the log and the histogram get.
use Prim.Native.String
use Prim.Native.String.{slice}
use inferencia.Common.{
  ℕ, ◌+◌, ◌-◌, ◌/◌, ◌%◌, String, Option, none, some, List, [], ◌∷◌, ◌++◌, ◌==◌, if◌then◌else◌,
  Result, ok, err, itoa, map,
}
use inferencia.ApiError.{Error, internal}
use inferencia.KeyStore.{KeyStore}
use inferencia.RateLimiter.{RateLimiter}
use inferencia.Middleware.{
  Request, Handler, StatusWriter, new_status_writer, chain, mask_key, level_of, Level,
  normalize_path,
}
use inferencia.Middleware.Observation.{Event, header, body, run}
use inferencia.Middleware.Protection.{protected}

-- A request as the server gets it; `context_id` is the request ID of its context.
pub record Incoming : Type 0 where
  pub method : String
  pub path : String
  pub remote_addr : String
  pub user_agent : String
  pub request_id_header : String
  pub context_id : String
  pub inner : Request

-- What a handler did to its writer, and the value it panicked with, if it did.
pub record Exchange : Type 0 where
  pub headers : List (String × String)
  pub events : List Event
  pub panic : Option String

pub record RequestLine : Type 0 where
  pub level : Level
  pub request_id : String
  pub method : String
  pub path : String
  pub status : ℕ
  pub bytes : ℕ
  pub remote_addr : String
  pub user_agent : String
  pub api_key : Option String

-- What is logged: a canonical line, or a recovered panic with its value, method and path.
pub data Line : Type 0 where
  request : RequestLine → Line
  panic_recovered : String → String → String → Line

-- `counts` are the label values of the increments of requests_total.
pub record Site : Type 0 where
  pub limiter : RateLimiter
  pub lines : List Line
  pub counts : List (String × String × String)
  pub in_flight : ℕ

abbrev pub Layered : Type 0
Layered = Incoming → Site → Exchange × Site

-- `hex.EncodeToString`, on bytes.
abbrev hex_digit : ℕ → String
hex_digit n = slice "0123456789abcdef" n (n + 1)

abbrev encode_to_string : List ℕ → String
encode_to_string [] = ""
encode_to_string (b ∷ bs) =
    String.◌++◌ (hex_digit (b / 16)) (String.◌++◌ (hex_digit (b % 16)) (encode_to_string bs))

-- The bytes of `fallbackID[:16]`.
abbrev fallback_id : List ℕ
fallback_id =
    b'i' ∷ b'n' ∷ b'f' ∷ b'e' ∷ b'r' ∷ b'e' ∷ b'n' ∷ b'c' ∷ b'i' ∷ b'a' ∷ b'-' ∷ b'f' ∷ b'a' ∷ b'l'
    ∷ b'l' ∷ b'b' ∷ []

-- From 16 random bytes, or `none` if `rand.Read` fails.
unfoldable pub generate_id : Option (List ℕ) → String
generate_id none = encode_to_string fallback_id
generate_id (some bytes) = encode_to_string bytes

unfoldable pub request_id : Option (List ℕ) → Layered → Layered
request_id random next req s =
    let id = if req.request_id_header == "" then generate_id random else req.request_id_header in
    let (x, s') = next (record req { context_id = id }) s in
    (record x { headers = ("X-Request-ID", id) ∷ x.headers }, s')

-- `apierror.Write`; `size` is the length of an error's JSON.
abbrev pub write_error : (Error → ℕ) → Error → Exchange
write_error size e = record {
  headers = ("Content-Type", "application/json") ∷ [];
  events = header e.status ∷ body (size e) ∷ [];
  panic = none;
}

abbrev recovered : (Error → ℕ) → Incoming → Option String → Exchange × Site → Exchange × Site
recovered size req none (x, s) = (x, s)
recovered size req (some value) (x, s) = (
  let e = write_error size (internal "Internal server error.") in
      record { headers = x.headers ++ e.headers; events = x.events ++ e.events; panic = none },
  record s { lines = s.lines ++ (panic_recovered value req.method req.path ∷ []) },
)

unfoldable pub recover : (Error → ℕ) → Layered → Layered
recover size next req s = let (x, s') = next req s in recovered size req x.panic (x, s')

-- The part after `next.ServeHTTP`, which a panic skips.
abbrev counted : Option String → String × String × String → Site → Site
counted none labels s = record s { counts = s.counts ++ (labels ∷ []) }
counted (some value) labels s = s

unfoldable pub metrics : Layered → Layered
metrics next req s =
    let (x, s') = next req (record s { in_flight = s.in_flight + 1 }) in
    let sw = run new_status_writer x.events in
    let s'' = counted x.panic (req.method, normalize_path req.path, itoa sw.status) s' in
    (x, record s'' { in_flight = s''.in_flight - 1 })

abbrev pub request_line : Incoming → StatusWriter → RequestLine
request_line req sw = record {
  level = level_of sw.status;
  request_id = req.context_id;
  method = req.method;
  path = req.path;
  status = sw.status;
  bytes = sw.bytes;
  remote_addr = req.remote_addr;
  user_agent = req.user_agent;
  api_key = if req.inner.api_key == "" then none else some (mask_key req.inner.api_key);
}

-- As in `counted`, a panic skips this.
abbrev logged : Option String → RequestLine → Site → Site
logged none line s = record s { lines = s.lines ++ (request line ∷ []) }
logged (some value) line s = s

unfoldable pub logging : Layered → Layered
logging next req s =
    let (x, s') = next req s in
    (x, logged x.panic (request_line req (run new_status_writer x.events)) s')

abbrev texts : List (String × ℕ) → List (String × String)
texts hs = map (λ (h : String × ℕ). (h.0, itoa h.1)) hs

abbrev flatten : (Error → ℕ) → Result Error Exchange → List (String × ℕ) → Exchange
flatten size (ok x) hs = record x { headers = texts hs ++ x.headers }
flatten size (err e) hs = let x = write_error size e in record x { headers = texts hs ++ x.headers }

-- The inner two layers and the handler, on the limiter.
abbrev pub lift : (Error → ℕ) → Handler Exchange → Layered
lift size h req s =
    let (reply, rl) = h req.inner s.limiter in
    (flatten size reply.outcome reply.headers, record s { limiter = rl })

-- The closure `protected`.
unfoldable pub stack : (Error → ℕ) → Option (List ℕ) → KeyStore → Handler Exchange → Layered
stack size random ks h =
    chain (lift size (protected ks h)) (request_id random ∷ recover size ∷ metrics ∷ logging ∷ [])
