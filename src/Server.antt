-- ===== src/Server.antt =====
-- internal/server/server.go: the routes of the server and the stack before each. The lookup is that
-- of Go's `http.ServeMux` on patterns of a method and a whole path. What it does before, a redirect
-- to a clean path if the path of the request is none, is the parameter `redirect`.
pub mod Guarded
pub mod Logger
pub mod Process
pub mod Boot
pub mod Registered
pub mod Startup
pub mod Access
pub mod Docs
pub mod Tracing
pub mod Ending
mod Watch
mod Tests
use Prim.Native.String
use inferencia.Common.{
  ℕ, String, Bool, true, false, ◌&&◌, ◌||◌, Option, none, some, List, [], ◌∷◌, ◌++◌, ◌==◌,
  if◌then◌else◌, any, itoa, itoa_ℤ, ℤ, pos,
}
use inferencia.Config
use inferencia.Config.{Config, seconds}
use inferencia.ApiError.{Error}
use inferencia.KeyStore.{KeyStore}
use inferencia.RateLimiter.{RateLimiter}
use inferencia.Middleware.{Handler}
use inferencia.Middleware.Observation.{header, body}
use inferencia.Middleware.Stack.{Incoming, Exchange, Line, Site, stack}

-- The handlers of the server.
pub data Endpoint : Type 0 where
  ready version openapi docs metrics chat_completions models embeddings speech health_status :
      Endpoint

-- What stands before a handler: nothing, or the stack with the limiter of `New`, or with that of
-- cmd/inferencia/main.go.
pub data Guard : Type 0 where
  unguarded api_limited tts_limited : Guard

pub record Route : Type 0 where
  pub method : String
  pub path : String
  pub guard : Guard
  pub endpoint : Endpoint

-- `http.Server.Handler`: nil, a mux, or a handler around another.
pub data HttpHandler : Type 0 where
  nil : HttpHandler
  mux : List Route → HttpHandler
  traced : HttpHandler → HttpHandler

pub record HttpServer : Type 0 where
  pub addr : String
  pub handler : HttpHandler
  pub read_timeout : ℤ
  pub read_header_timeout : ℤ
  pub write_timeout : ℤ
  pub idle_timeout : ℤ

abbrev is_same : Route → Route → Bool
is_same a b = (a.method == b.method) && (a.path == b.path)

-- `mux.Handle`, which panics on a pattern that is there: `none`.
abbrev pub handle_all : List Route → List Route → Option (List Route)
handle_all routes [] = some routes
handle_all routes (r ∷ rs) =
    if any (is_same r) routes then none else handle_all (routes ++ (r ∷ [])) rs

abbrev route : String → String → Guard → Endpoint → Route
route method path guard endpoint = record {
  method = method;
  path = path;
  guard = guard;
  endpoint = endpoint;
}

abbrev pub addr : Config.Server → String
addr s = String.◌++◌ s.host (String.◌++◌ ":" (itoa_ℤ s.port))

abbrev pub new_routes : List Route
new_routes =
    route "GET" "/health/ready" unguarded ready
    ∷ route "GET" "/version" unguarded version
    ∷ route "GET" "/openapi.yaml" unguarded openapi
    ∷ route "GET" "/docs" unguarded docs
    ∷ route "GET" "/metrics" unguarded metrics
    ∷ route "POST" "/v1/chat/completions" api_limited chat_completions
    ∷ route "GET" "/v1/models" api_limited models
    ∷ route "POST" "/v1/embeddings" api_limited embeddings
    ∷ []

abbrev with_handler : Config → Option (List Route) → Option HttpServer
with_handler cfg none = none
with_handler cfg (some routes) = some (record {
  addr = addr cfg.server;
  handler = mux routes;
  read_timeout = cfg.server.read_timeout;
  read_header_timeout = seconds 10;
  write_timeout = cfg.server.write_timeout;
  idle_timeout = seconds 60;
})

-- `none` is a panic.
unfoldable pub new : Config → Option HttpServer
new cfg = with_handler cfg (handle_all [] new_routes)

abbrev replace : HttpServer → Option (List Route) → Option HttpServer
replace srv none = none
replace srv (some routes) = some (record srv { handler = mux routes })

-- Nothing is done if the handler is no mux.
abbrev add_routes : HttpServer → HttpHandler → List Route → Option HttpServer
add_routes srv nil rs = some srv
add_routes srv (mux routes) rs = replace srv (handle_all routes rs)
add_routes srv (traced h) rs = some srv

abbrev pub speech_route : Guard → Route
speech_route protected = route "POST" "/v1/audio/speech" protected speech

abbrev pub health_routes : List Route
health_routes =
    route "GET" "/health" unguarded health_status
    ∷ route "GET" "/health/status" unguarded health_status
    ∷ []

-- `registry` says that `rtr` is not nil.
unfoldable pub register_tts_routes : HttpServer → Bool → Guard → Option HttpServer
register_tts_routes srv registry protected =
    if registry then add_routes srv srv.handler (speech_route protected ∷ []) else some srv

-- With a limiter of its own, and no checks of health.
unfoldable pub register_tts_route : List Route → Option (List Route)
register_tts_route routes = handle_all routes (speech_route tts_limited ∷ [])

unfoldable pub register_health_status_route : HttpServer → Option HttpServer
register_health_status_route srv = add_routes srv srv.handler health_routes

-- A pattern for GET serves HEAD too.
abbrev pub allows : Route → String → Bool
allows r method = (r.method == method) || ((r.method == "GET") && (method == "HEAD"))

-- What a mux does with a request: the route, or the status 405 if only the method is wrong, or 404.
pub data Found : Type 0 where
  found : Route → Found
  wrong_method not_found : Found

abbrev pub missed : Found → Found
missed (found r) = found r
missed wrong_method = wrong_method
missed not_found = wrong_method

abbrev pub look_up : List Route → String → String → Found
look_up [] method path = not_found
look_up (r ∷ rs) method path =
    let rest = look_up rs method path in
    if r.path == path then (if allows r method then found r else missed rest) else rest

-- The state that requests share: the two limiters, and what logging and metrics keep.
pub record World : Type 0 where
  pub api : RateLimiter
  pub tts : RateLimiter
  pub lines : List Line
  pub counts : List (String × String × String)
  pub in_flight : ℕ

abbrev pub site : RateLimiter → World → Site
site rl w = record { limiter = rl; lines = w.lines; counts = w.counts; in_flight = w.in_flight }

abbrev logged : World → Site → World
logged w s = record w { lines = s.lines; counts = s.counts; in_flight = s.in_flight }

abbrev with_api : World → Exchange × Site → Exchange × World
with_api w (x, s) = (x, record (logged w s) { api = s.limiter })

abbrev with_tts : World → Exchange × Site → Exchange × World
with_tts w (x, s) = (x, record (logged w s) { tts = s.limiter })

-- `http.Error`: a line of text, with its length.
abbrev plain : ℕ → ℕ → Exchange
plain status length = record {
  headers = ("Content-Type", "text/plain; charset=utf-8") ∷ [];
  events = header status ∷ body length ∷ [];
  panic = none;
}

module _ (size : Error → ℕ) (ks : KeyStore) (redirect : Incoming → Option Exchange)
    (pages : Endpoint → Incoming → Exchange) (handlers : Endpoint → Handler Exchange) where
  abbrev pub guarded : Guard → Endpoint → Option (List ℕ) → Incoming → World → Exchange × World
  guarded unguarded e random req w = (pages e req, w)
  guarded api_limited e random req w =
      with_api w (stack size random ks (handlers e) req (site w.api w))
  guarded tts_limited e random req w =
      with_tts w (stack size random ks (handlers e) req (site w.tts w))

  abbrev pub dispatched : Found → Option (List ℕ) → Incoming → World → Exchange × World
  dispatched (found r) random req w = guarded r.guard r.endpoint random req w
  dispatched wrong_method random req w = (plain 405 19, w)
  dispatched not_found random req w = (plain 404 19, w)

  abbrev pub answered :
      Option Exchange → List Route → Option (List ℕ) → Incoming → World → Exchange × World
  answered none routes random req w = dispatched (look_up routes req.method req.path) random req w
  answered (some x) routes random req w = (x, w)

  unfoldable pub serve : List Route → Option (List ℕ) → Incoming → World → Exchange × World
  serve routes random req w = answered (redirect req) routes random req w
