-- ===== src/Server/Startup.antt =====
-- Why `main` exits, and what it has set up otherwise.
use inferencia.Common.{
  ◌≡◌, refl, ◌↔◌, String, Char, Bool, true, false, if◌then◌else◌, Option, none, some, List, [], ltb,
  All, In, ℤ, Result, ok, err,
}
use inferencia.Config.{Config, Float}
use inferencia.Config.Environment.{LoadError, load}
use inferencia.Config.Loading.{load-IsValid}
use inferencia.KeyStore
use inferencia.KeyStore.{KeyStore, new_key_store}
use inferencia.Backend.{new_registry}
use inferencia.Backend.Consistency.{IsConsistent, register_all-IsConsistent}
use inferencia.Router
use inferencia.Router.{registry_len}
use inferencia.Adapter.{Network}
use inferencia.Adapter.Interfaces.{Codecs}
use inferencia.Server.{not_found, look_up}
use inferencia.Server.Guarded.{IsBehindStack}
use inferencia.Server.Process.{
  ChatRegistry, Exit, config_failed, keys_failed, unknown_type, tracing_failed, panicked, Process,
  name_of, register_tts, traced_by, observed, wired, keyed, configured, boot,
}
use inferencia.Server.Boot.{
  routes_of, set_up-IsSetUp, IsKnown, IsRegistered, register_backends-IsRegistered,
}
use inferencia.Server.Registered.{
  IsPrimary, serves_iff, register_all-IsPrimary, IsConnected-IsKnown,
}

module _ (lower : Char → Char) (net : Network) (codecs : Codecs)
    (parse_float : String → Option Float) (parse_duration : String → Option ℤ)
    (getenv : String → String) (read_file : String → Option String)
    (unmarshal : String → Config → Option Config)
    (read_lines : String → Result String (List String × Option String))
    (new_tracer : Config → Option String) (path : String) where
  abbrev pub loaded : Result LoadError Config
  loaded = load lower parse_float parse_duration getenv read_file unmarshal path

  abbrev pub keys_of : Config → Result KeyStore.Error KeyStore
  keys_of cfg = new_key_store (getenv "INFERENCIA_API_KEYS") read_lines cfg.auth.keys_file

  -- What each exit tells.
  abbrev pub IsReason : Exit → Type 0
  IsReason (config_failed e) = loaded ≡ err e
  IsReason (keys_failed e) = (cfg : Config) × (loaded ≡ ok cfg) × (keys_of cfg ≡ err e)
  IsReason (unknown_type b) = (cfg : Config) × (loaded ≡ ok cfg) × In b cfg.backends × (¬ IsKnown b)
  IsReason (tracing_failed e) =
      (cfg : Config) × (loaded ≡ ok cfg)
      × (cfg.observability.otel_enabled ≡ true)
      × (new_tracer cfg ≡ some e)
  IsReason panicked = ⊥

  pub record IsServing (p : Process) : Type 0 where
    pub config : loaded ≡ ok p.cfg
    pub keys : keys_of p.cfg ≡ ok p.keys
    pub consistent : IsConsistent name_of p.registry
    pub primary : IsPrimary p.cfg.backends p.registry
    pub known : All IsKnown p.cfg.backends
    pub routes : All IsBehindStack (routes_of p.server.handler)
    pub speech :
        (look_up (routes_of p.server.handler) "POST" "/v1/audio/speech" ≡ not_found)
        ↔ (p.cfg.tts_backends ≡ [])

  abbrev pub IsStarted : Result Exit Process → Type 0
  IsStarted (err e) = IsReason e
  IsStarted (ok p) = IsServing p

  traced-IsStarted :
      (p : Process) (o : Option String)
      → p.cfg.observability.otel_enabled ≡ true
      → new_tracer p.cfg ≡ o
      → IsServing p
      → IsStarted (
          traced_by lower net codecs parse_float parse_duration getenv read_file unmarshal
            read_lines new_tracer p o)
  traced-IsStarted p (some e) on failed serving = (p.cfg, serving.config, on, failed)
  traced-IsStarted p none on made serving = record {
    config = serving.config;
    keys = serving.keys;
    consistent = serving.consistent;
    primary = serving.primary;
    known = serving.known;
    routes = serving.routes;
    speech = serving.speech;
  }

  either_way :
      (b : Bool) (x y : Result Exit Process)
      → (b ≡ true → IsStarted x)
      → (b ≡ false → IsStarted y)
      → IsStarted (if b then x else y)
  either_way true x y p q = p refl
  either_way false x y p q = q refl

  observed-IsStarted :
      (p : Process)
      → IsServing p
      → IsStarted (
          observed lower net codecs parse_float parse_duration getenv read_file unmarshal read_lines
            new_tracer p)
  observed-IsStarted p serving =
      either_way p.cfg.observability.otel_enabled _ _
        (λ on. traced-IsStarted p (new_tracer p.cfg) on refl serving) (λ off. serving)

  module _ (cfg : Config) (config : loaded ≡ ok cfg) where
    wired-IsStarted :
        (ks : KeyStore) (result : Result Exit ChatRegistry)
        → keys_of cfg ≡ ok ks
        → IsRegistered lower net codecs cfg.backends new_registry result
        → IsStarted (
            wired lower net codecs parse_float parse_duration getenv read_file unmarshal read_lines
              new_tracer cfg ks result)
    wired-IsStarted ks (err e) keys (b, listed, unknown, same) =
        rw same (cfg, config, listed, unknown)
    wired-IsStarted ks (ok reg) keys (cs, connected, same) =
        let valid =
          load-IsValid lower parse_float parse_duration getenv read_file unmarshal path cfg
            config in
        let serves =
          ltb 0
            (registry_len (register_tts lower net codecs cfg.tts_backends Router.new_registry)) in
        let (srv, e, set) = set_up-IsSetUp cfg serves in
        let tts_iff = serves_iff lower net codecs cfg.tts_backends in
        rw e (
          observed-IsStarted _ (record {
            config = config;
            keys = keys;
            consistent = rw same (register_all-IsConsistent name_of cs);
            primary = rw same (
                register_all-IsPrimary lower net codecs cfg.backends cs valid.some_backend
                  valid.complete connected);
            known = IsConnected-IsKnown lower net codecs cfg.backends cs connected;
            routes = set.0;
            speech = ((λ x. tts_iff.0 (set.1.0 x)), (λ x. set.1.1 (tts_iff.1 x)));
          }))

    keyed-IsStarted :
        (result : Result KeyStore.Error KeyStore)
        → keys_of cfg ≡ result
        → IsStarted (
            keyed lower net codecs parse_float parse_duration getenv read_file unmarshal read_lines
              new_tracer cfg result)
    keyed-IsStarted (err e) keys = (cfg, config, keys)
    keyed-IsStarted (ok ks) keys =
        wired-IsStarted ks _ keys
          (register_backends-IsRegistered lower net codecs cfg.backends new_registry)

  configured-IsStarted :
      (result : Result LoadError Config)
      → loaded ≡ result
      → IsStarted (
          configured lower net codecs parse_float parse_duration getenv read_file unmarshal
            read_lines new_tracer result)
  configured-IsStarted (err e) config = config
  configured-IsStarted (ok cfg) config = keyed-IsStarted cfg config (keys_of cfg) refl

  -- Whatever the files and the environment hold, `main`, its watchdog left out, registers no pattern
  -- twice, which would panic. Each exit is for its reason: the configuration or the keys do not
  -- load, a configured backend has a type that is neither mlx nor ollama, or tracing is enabled and
  -- fails. Otherwise all backends are of these types, the registry is consistent, its primary has
  -- the name of the first one configured, every route under /v1/ stands behind the stack, and speech
  -- is served iff a TTS backend is configured.
  pub boot-IsStarted : IsStarted (
      boot lower net codecs parse_float parse_duration getenv read_file unmarshal read_lines
        new_tracer path)
  unfolding boot
  boot-IsStarted = configured-IsStarted loaded refl
