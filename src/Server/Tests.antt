-- ===== src/Server/Tests.antt =====
-- A server with speech, a request without a key, and starts with a file and without.
use inferencia.Common.{
  itoa, true, ℕ, ◌≡◌, refl, String, Char, Option, none, some, List, [], ◌∷◌, ◌++◌, ◌==◌, eq_iff,
  arith, ok, err, ◌||◌, clean, if◌then◌else◌,
}
use inferencia.ApiError.{Error}
use inferencia.KeyStore
use inferencia.KeyStore.{KeyStore}
use inferencia.RateLimiter.{RateLimiter}
use inferencia.Adapter.{Network, HttpResponse, plain}
use inferencia.Adapter.Interfaces.{Codecs}
use inferencia.Middleware.{Handler, extract_bearer_token}
use inferencia.Middleware.Observation.{header}
use inferencia.Middleware.Refusal.{HasKey}
use inferencia.Middleware.Stack.{Incoming, Exchange}
use inferencia.Server.{
  HttpServer, mux, new, register_tts_routes, register_health_status_route, Endpoint, Route, World,
  serve, new_routes, speech_route, health_routes, tts_limited,
}
use inferencia.Server.Guarded.{IsRefused}
use inferencia.Server.Access.{serve-set_up-IsRefused}
use inferencia.Server.Process.{boot, set_up}
use inferencia.Config.{defaults, seconds}
use inferencia.Server.Startup.{IsStarted, boot-IsStarted}

abbrev size : Error → ℕ
size e = 100

abbrev one_key : KeyStore
one_key = record { keys = ("sk-one", tt) ∷ [] }

abbrev two : RateLimiter
two = record { buckets = []; num = 1; den = 1; burst = 2 }

abbrev world : World
world = record { api = two; tts = two; lines = []; counts = []; in_flight = 0 }

-- The key is misspelt.
abbrev stranger : Incoming
stranger = record {
  method = "POST";
  path = "/v1/audio/speech";
  remote_addr = "10.0.0.1:5000";
  user_agent = "curl";
  request_id_header = "";
  context_id = "";
  inner = record { authorization = "Bearer sk-two"; api_key = ""; at = 0 };
}

stranger-no_key : ¬ HasKey one_key stranger.inner
unfolding extract_bearer_token KeyStore.validate
stranger-no_key (key, e, v) = ground (arith, eq_iff "sk-one" key, eq_iff "sk-one" "sk-two")

abbrev empty : Endpoint → Incoming → Exchange
empty e req = record { headers = []; events = []; panic = none }

abbrev panics : Endpoint → Handler Exchange
panics e req rl = (
  record { headers = []; outcome = ok (record { headers = []; events = []; panic = some "boom" }) },
  rl,
)

abbrev serves : Endpoint → Handler Exchange
serves e req rl = (
  record {
    headers = [];
    outcome = ok (record { headers = []; events = header 200 ∷ []; panic = none });
  },
  rl,
)

abbrev routes : List Route
routes = new_routes ++ (speech_route tts_limited ∷ health_routes)

abbrev server : HttpServer
server = record {
  addr = "127.0.0.1:8080";
  handler = mux routes;
  read_timeout = seconds 30;
  read_header_timeout = seconds 10;
  write_timeout = seconds 120;
  idle_timeout = seconds 60;
}

server_set_up : set_up defaults true ≡ some server
unfolding set_up new register_tts_routes register_health_status_route defaults itoa
server_set_up = refl

-- As Go's mux redirects, but for a slash at the end.
abbrev to_clean : Incoming → Option Exchange
to_clean req =
    if (req.method == "CONNECT") || (clean req.path == req.path)
    then none
    else some (record {
      headers = ("Location", clean req.path) ∷ [];
      events = header 307 ∷ [];
      panic = none;
    })

redirected :
    (serve size one_key to_clean empty panics routes none
      (record stranger { path = "/v1//models" })
      world).0.headers
    ≡ ("Location", "/v1/models") ∷ []
unfolding serve
redirected = refl

serve-set_up-IsRefused_example :
    IsRefused size one_key to_clean none stranger world stranger-no_key
      (serve size one_key to_clean empty panics routes none stranger world)
    × (serve size one_key to_clean empty panics routes none stranger world
        ≡ serve size one_key to_clean empty serves routes none stranger world)
serve-set_up-IsRefused_example =
    serve-set_up-IsRefused defaults true server size one_key to_clean none stranger world
      stranger-no_key empty empty panics serves server_set_up refl

abbrev same : Char → Char
same c = c

abbrev missing_file : HttpResponse
missing_file = record {
  status = 404;
  content_type = "";
  body = "";
  body_error = none;
  lines = [];
  lines_error = none;
}

abbrev net : Network
net = record { refuse = λ method url. none; deliver = λ client req. ok missing_file }

abbrev codecs : Codecs
codecs = record {
  encode_chat = λ req. ok "{}";
  encode_embed = λ req. ok "{}";
  encode_tts = λ req. ok "{}";
  decode_chat = λ resp. err (plain "EOF");
  decode_models = λ resp. err (plain "EOF");
  decode_embed = λ resp. err (plain "EOF");
}

abbrev env : String → String
env name =
    if name == "INFERENCIA_API_KEYS"
    then "sk-one,sk-two"
    else if name == "INFERENCIA_KOKORO_URL"
    then "http://localhost:8880"
    else ""

boot-IsStarted_example :
    IsStarted same net codecs
      (λ v. none)
      (λ v. none)
      env
      (λ path. none)
      (λ text cfg. none)
      (λ path. err "no such file")
      (λ cfg. none)
      ""
      (boot same net codecs
        (λ v. none)
        (λ v. none)
        env
        (λ path. none)
        (λ text cfg. none)
        (λ path. err "no such file")
        (λ cfg. none)
        "")
boot-IsStarted_example =
    boot-IsStarted same net codecs (λ v. none) (λ v. none) env (λ path. none) (λ text cfg. none)
      (λ path. err "no such file") (λ cfg. none) ""
