-- ===== src/Middleware.antt =====
-- internal/middleware: the stack that authenticates and limits a request (auth.go, ratelimit.go,
-- chain.go), and the helpers of logging and metrics (logging.go, metrics.go).
pub mod Protection
pub mod Observation
pub mod Stack
pub mod Containment
pub mod Refusal
mod Collectors
mod Tests
use Prim.Native.String
use Prim.Native.String.{len, slice}
use inferencia.Common.{
  ℕ, ◌-◌, ◌+◌, String, Bool, true, false, Option, none, some, List, [], ◌∷◌, ◌++◌, ◌==◌, not,
  if◌then◌else◌, ltb, leb, Result, ok, err, trim_space, to_lower, any,
}
use inferencia.ApiError.{Error, unauthorized, rate_limited}
use inferencia.KeyStore
use inferencia.KeyStore.{KeyStore, InvalidKey}
use inferencia.RateLimiter.{RateLimiter, allow}

-- What the stack reads of a request: the Authorization header, empty if there is none, the key in
-- the request's context, empty if there is none, and the time at which the limiter sees it.
pub record Request : Type 0 where
  pub authorization : String
  pub api_key : String
  pub at : ℕ

-- The headers that are set, and the error that is written or what the handler did.
pub record Reply (R : Type 0) : Type 0 where
  pub headers : List (String × ℕ)
  pub outcome : Result Error R

-- A handler runs on the limiter's state.
abbrev pub Handler : Type 0 → Type 0
Handler R = Request → RateLimiter → Reply R × RateLimiter

abbrev pub Middleware : Type 0 → Type 0
Middleware R = Handler R → Handler R

abbrev pub chain : {H : Type 0} → H → List (H → H) → H
chain h [] = h
chain h (mw ∷ rest) = mw (chain h rest)

-- `strings.EqualFold` with "Bearer ", none of whose letters has a third form.
abbrev pub is_bearer : String → Bool
is_bearer s = to_lower (λ c. c) s == "bearer "

unfoldable pub extract_bearer_token : String → Option String
extract_bearer_token h =
    if h == ""
    then none
    else if ltb (len h) 7
    then none
    else if is_bearer (slice h 0 7)
    then (let token = trim_space (slice h 7 (len h)) in if token == "" then none else some token)
    else none

abbrev pub deny : {R : Type 0} → Error → RateLimiter → Reply R × RateLimiter
deny e rl = (record { headers = []; outcome = err e }, rl)

abbrev pub missing : Error
missing = unauthorized "Missing or malformed Authorization header. Expected: Bearer <api_key>"

abbrev pub invalid : Error
invalid = unauthorized "Invalid API key."

abbrev checked : {R : Type 0} → Option InvalidKey → String → Middleware R
checked none key next req rl = next (record req { api_key = key }) rl
checked (some e) key next req rl = deny invalid rl

abbrev authenticated : {R : Type 0} → KeyStore → Option String → Middleware R
authenticated ks none next req rl = deny missing rl
authenticated ks (some key) next req rl = checked (KeyStore.validate ks key) key next req rl

unfoldable pub auth : {R : Type 0} → KeyStore → Middleware R
auth ks next req rl = authenticated ks (extract_bearer_token req.authorization) next req rl

abbrev with_headers :
    {R : Type 0} → List (String × ℕ) → Reply R × RateLimiter → Reply R × RateLimiter
with_headers hs (reply, rl) = (record reply { headers = hs ++ reply.headers }, rl)

-- A rejection counts in a metric, which is left out.
abbrev limited :
    {R : Type 0} → ℕ → (ℕ × Bool) × RateLimiter → Handler R → Request → Reply R × RateLimiter
limited burst ((remaining, false), rl) next req =
    with_headers
      (("X-RateLimit-Limit", burst) ∷ ("X-RateLimit-Remaining", 0) ∷ ("Retry-After", 1) ∷ [])
      (deny rate_limited rl)
limited burst ((remaining, true), rl) next req =
    with_headers (("X-RateLimit-Limit", burst) ∷ ("X-RateLimit-Remaining", remaining) ∷ [])
      (next req rl)

unfoldable pub rate_limit : {R : Type 0} → Middleware R
rate_limit next req rl =
    if req.api_key == ""
    then next req rl
    else limited rl.burst (allow rl req.api_key req.at) next req

-- The last 8 bytes of a key, for the log.
unfoldable pub mask_key : String → String
mask_key key =
    if leb (len key) 8 then "***" else String.◌++◌ "..." (slice key (len key - 8) (len key))

-- The status and the count of the bytes that a response had; `forwarded` are the statuses that
-- reached the underlying writer.
pub record StatusWriter : Type 0 where
  pub status : ℕ
  pub bytes : ℕ
  pub wrote_header : Bool
  pub forwarded : List ℕ

-- As `Logging` and `Metrics` make it.
abbrev pub new_status_writer : StatusWriter
new_status_writer = record { status = 200; bytes = 0; wrote_header = false; forwarded = [] }

unfoldable pub write_header : StatusWriter → ℕ → StatusWriter
write_header sw code =
    let forwarded = sw.forwarded ++ (code ∷ []) in
    if not sw.wrote_header
    then record sw { status = code; wrote_header = true; forwarded = forwarded }
    else record sw { forwarded = forwarded }

-- `n` is the number of bytes that the underlying writer took.
unfoldable pub write : StatusWriter → ℕ → StatusWriter
write sw n = record sw { bytes = sw.bytes + n }

-- The level of the log line.
pub data Level : Type 0 where
  info warn error : Level

unfoldable pub level_of : ℕ → Level
level_of status = if leb 500 status then error else if leb 400 status then warn else info

abbrev pub known_paths : List String
known_paths =
    "/v1/chat/completions" ∷ "/v1/models" ∷ "/v1/embeddings" ∷ "/v1/audio/speech" ∷ "/health"
    ∷ "/health/ready" ∷ "/health/status" ∷ "/metrics" ∷ "/openapi.yaml" ∷ "/docs" ∷ []

unfoldable pub normalize_path : String → String
normalize_path path = if any (◌==◌ path) known_paths then path else "/other"
