-- ===== src/Server/Process.antt =====
-- The start of cmd/inferencia/main.go, up to the listening server. What the library of tracing and
-- the files give are parameters; `net` and `codecs` are those of the adapters. The watchdog, which
-- the handlers ask for health, is that of Server/Watch; the limiters are those of a `World`.
use inferencia.Common.{
  String, Char, Bool, true, false, Option, none, some, List, [], ◌∷◌, ◌==◌, if◌then◌else◌, ltb,
  leb_ℤ, ℤ, pos, Result, ok, err,
}
use inferencia.Config
use inferencia.Config.{Config, Float, seconds}
use inferencia.Config.Environment.{LoadError, load}
use inferencia.KeyStore
use inferencia.KeyStore.{KeyStore, new_key_store}
use inferencia.Backend
use inferencia.Backend.{new_registry, register}
use inferencia.Router
use inferencia.Router.{BackendInfo, cap_tts}
use inferencia.Adapter.{Network}
use inferencia.Adapter.Mlx.{new_mlx}
use inferencia.Adapter.Ollama.{new_ollama}
use inferencia.Adapter.Tts.{new_tts_http}
use inferencia.Adapter.Interfaces
use inferencia.Adapter.Interfaces.{ChatBackend, Codecs, mlx_backend, ollama_backend, tts_backend}
use inferencia.Server.{
  HttpServer, traced, tts_limited, new, register_tts_routes, register_health_status_route,
}
use inferencia.Server.Logger.{LogHandler, new_logger}

abbrev pub ChatRegistry : Type 0
ChatRegistry = Backend.Registry ChatBackend

abbrev pub TtsRegistry : Type 0
TtsRegistry = Router.Registry (Unit {0}) Interfaces.TtsBackend

-- Why `main` exits with the status 1, or panics on a pattern that is registered twice.
pub data Exit : Type 0 where
  config_failed : LoadError → Exit
  keys_failed : KeyStore.Error → Exit
  unknown_type : Config.Backend → Exit
  tracing_failed : String → Exit
  panicked : Exit

pub record Process : Type 0 where
  pub cfg : Config
  pub logger : LogHandler
  pub keys : KeyStore
  pub registry : ChatRegistry
  pub tts : TtsRegistry
  pub server : HttpServer

abbrev pub name_of : ChatBackend → String
name_of b = b.name

abbrev health_timeout : Config.Backend → ℤ
health_timeout b = if leb_ℤ b.health_timeout (pos 0) then seconds 5 else b.health_timeout

module _ (lower : Char → Char) (net : Network) (codecs : Codecs) where
  abbrev pub mlx_of : Config.Backend → ChatBackend
  mlx_of b = mlx_backend net codecs (new_mlx b.name b.url (health_timeout b) b.timeout)

  abbrev pub ollama_of : Config.Backend → ChatBackend
  ollama_of b = ollama_backend net codecs (new_ollama b.name b.url (health_timeout b) b.timeout)

  unfoldable pub connect : Config.Backend → Option ChatBackend
  connect b =
      if b.type == "mlx"
      then some (mlx_of b)
      else if b.type == "ollama"
      then some (ollama_of b)
      else none

  -- The loop over `cfg.Backends`.
  abbrev pub register_backends : List Config.Backend → ChatRegistry → Result Exit ChatRegistry
  register_backends [] reg = ok reg
  register_backends (b ∷ bs) reg = elim (connect b) [
    | none ↦ err (unknown_type b)
    | some c ↦ register_backends bs (register name_of reg c)
  ]

  abbrev pub tts_info : Config.TtsBackend → BackendInfo (Unit {0}) Interfaces.TtsBackend
  tts_info t = record {
    name = t.name;
    backend = none;
    tts_backend = some (tts_backend net codecs lower (new_tts_http t.name t.url t.timeout));
    capabilities = cap_tts ∷ [];
    models = record { id = t.name; provider = ""; kind = cap_tts } ∷ [];
  }

  abbrev pub register_tts : List Config.TtsBackend → TtsRegistry → TtsRegistry
  register_tts [] rtr = rtr
  register_tts (t ∷ ts) rtr = register_tts ts (Router.register rtr (tts_info t))

abbrev with_health : Option HttpServer → Option HttpServer
with_health none = none
with_health (some srv) = register_health_status_route srv

abbrev with_tts : Bool → Option HttpServer → Option HttpServer
with_tts serves none = none
with_tts false (some srv) = some srv
with_tts true (some srv) = register_tts_routes srv true tts_limited

-- The server with all its routes; `serves` says that there is a TTS backend.
unfoldable pub set_up : Config → Bool → Option HttpServer
set_up cfg serves = with_health (with_tts serves (new cfg))

module _ (lower : Char → Char) (net : Network) (codecs : Codecs)
    (parse_float : String → Option Float) (parse_duration : String → Option ℤ)
    (getenv : String → String) (read_file : String → Option String)
    (unmarshal : String → Config → Option Config)
    (read_lines : String → Result String (List String × Option String))
    (new_tracer : Config → Option String) where
  -- The part after `NewTracerProvider`.
  abbrev pub traced_by : Process → Option String → Result Exit Process
  traced_by p (some e) = err (tracing_failed e)
  traced_by p none =
      ok (record p { server = record p.server { handler = traced p.server.handler } })

  abbrev pub observed : Process → Result Exit Process
  observed p = if p.cfg.observability.otel_enabled then traced_by p (new_tracer p.cfg) else ok p

  abbrev pub served :
      Config → KeyStore → ChatRegistry → TtsRegistry → Option HttpServer → Result Exit Process
  served cfg ks reg rtr none = err panicked
  served cfg ks reg rtr (some srv) = observed (record {
    cfg = cfg;
    logger = new_logger cfg.log;
    keys = ks;
    registry = reg;
    tts = rtr;
    server = srv;
  })

  abbrev pub wired : Config → KeyStore → Result Exit ChatRegistry → Result Exit Process
  wired cfg ks (err e) = err e
  wired cfg ks (ok reg) =
      let rtr = register_tts lower net codecs cfg.tts_backends Router.new_registry in
      served cfg ks reg rtr (set_up cfg (ltb 0 (Router.registry_len rtr)))

  abbrev pub keyed : Config → Result KeyStore.Error KeyStore → Result Exit Process
  keyed cfg (err e) = err (keys_failed e)
  keyed cfg (ok ks) = wired cfg ks (register_backends lower net codecs cfg.backends new_registry)

  abbrev pub configured : Result LoadError Config → Result Exit Process
  configured (err e) = err (config_failed e)
  configured (ok cfg) =
      keyed cfg (new_key_store (getenv "INFERENCIA_API_KEYS") read_lines cfg.auth.keys_file)

  unfoldable pub boot : String → Result Exit Process
  boot path = configured (load lower parse_float parse_duration getenv read_file unmarshal path)
