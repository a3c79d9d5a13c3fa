-- ===== src/Config/Environment.antt =====
-- internal/config/config.go: the environment variables that override the file, and `Load`. Go's
-- Unicode table of lower-case letters, its parsers of floats and durations, the file system and
-- the YAML decoder are parameters.
use inferencia.Common.{
  zero, suc, String, Char, Bool, false, ◌||◌, Option, none, some, List, [], ◌∷◌, ◌++◌, ◌==◌,
  if◌then◌else◌, ℤ, pos, negsuc, Result, ok, err, trim_space, to_lower, atoi,
}
use inferencia.Config.{
  Config, Backend, TtsBackend, RateLimit, Log, Observability, Watchdog, Float, Error, seconds,
  defaults, validate,
}

-- A variable, and what its value, if it is not empty, does to the configuration.
abbrev pub Override : Type 0
Override = String × (String → Config → Config)

abbrev pub run : (String → String) → List Override → Config → Config
run getenv [] cfg = cfg
run getenv ((name, set) ∷ rest) cfg =
    run getenv rest (if getenv name == "" then cfg else set (getenv name) cfg)

-- A value that does not parse leaves the configuration alone.
abbrev pub parsed : {A : Type 0} → Option A → (A → Config → Config) → Config → Config
parsed none set cfg = cfg
parsed (some a) set cfg = set a cfg

abbrev pub tts_backend_exists : List TtsBackend → String → Bool
tts_backend_exists [] name = false
tts_backend_exists (b ∷ bs) name = (b.name == name) || tts_backend_exists bs name

abbrev pub add_tts : String → String → Config → Config
add_tts name v cfg = if tts_backend_exists cfg.tts_backends name then cfg else record cfg {
  tts_backends =
      cfg.tts_backends ++ (record { name = name; url = trim_space v; timeout = seconds 30 } ∷ []);
}

abbrev set_url : String → List Backend → List Backend
set_url v [] = []
set_url v (b ∷ bs) = record b { url = trim_space v } ∷ bs

abbrev set_host : String → Config → Config
set_host v cfg = record cfg { server = record cfg.server { host = v } }

abbrev pub set_port : ℤ → Config → Config
set_port n cfg = record cfg { server = record cfg.server { port = n } }

abbrev set_log : (Log → Log) → Config → Config
set_log f cfg = record cfg { log = f cfg.log }

abbrev set_otel : (Observability → Observability) → Config → Config
set_otel f cfg = record cfg { observability = f cfg.observability }

abbrev set_limit : (RateLimit → RateLimit) → Config → Config
set_limit f cfg = record cfg { ratelimit = f cfg.ratelimit }

abbrev pub set_watchdog : (Watchdog → Watchdog) → Config → Config
set_watchdog f cfg = record cfg { watchdog = f cfg.watchdog }

-- A threshold below 1 is ignored with a warning.
abbrev pub set_threshold : ℤ → Config → Config
set_threshold (pos zero) cfg = cfg
set_threshold (pos (suc n)) cfg = set_watchdog (λ w. record w { fail_threshold = pos (suc n) }) cfg
set_threshold (negsuc n) cfg = cfg

pub data LoadError : Type 0 where
  read_failed : LoadError
  parse_failed : LoadError
  invalid : List Error → LoadError

abbrev pub verdict : Config → List Error → Result LoadError Config
verdict cfg [] = ok cfg
verdict cfg (e ∷ es) = err (invalid (e ∷ es))

module _ (lower : Char → Char) (parse_float : String → Option Float)
    (parse_duration : String → Option ℤ) where
  -- The variables, in the order of the code.
  abbrev pub overrides : List Override
  overrides =
      ("INFERENCIA_HOST", set_host)
      ∷ ("INFERENCIA_PORT", λ v. parsed (atoi v) set_port)
      ∷ ("INFERENCIA_AUTH_KEYS_FILE", λ v cfg. record cfg { auth = record { keys_file = v } })
      ∷ ("INFERENCIA_LOG_LEVEL", λ v. set_log (λ l. record l { level = to_lower lower v }))
      ∷ ("INFERENCIA_LOG_FORMAT", λ v. set_log (λ l. record l { format = to_lower lower v }))
      ∷ (
        "INFERENCIA_LOG_CLOUD_FORMAT",
        λ v. set_log (λ l. record l { cloud_format = to_lower lower (trim_space v) }),
      )
      ∷ (
        "INFERENCIA_OTEL_ENABLED",
        λ v. set_otel (λ o. record o { otel_enabled = (to_lower lower v == "true") || (v == "1") }),
      )
      ∷ ("INFERENCIA_OTEL_ENDPOINT", λ v. set_otel (λ o. record o { otel_endpoint = trim_space v }))
      ∷ (
        "INFERENCIA_OTEL_SERVICE_NAME",
        λ v. set_otel (λ o. record o { otel_service_name = trim_space v }),
      )
      ∷ (
        "INFERENCIA_RATELIMIT_RPS",
        λ v. parsed (parse_float v) (λ f. set_limit (λ r. record r { requests_per_second = f })),
      )
      ∷ (
        "INFERENCIA_RATELIMIT_BURST",
        λ v. parsed (atoi v) (λ n. set_limit (λ r. record r { burst = n })),
      )
      ∷ ("INFERENCIA_BACKEND_URL", λ v cfg. record cfg { backends = set_url v cfg.backends })
      ∷ ("INFERENCIA_KOKORO_URL", add_tts "kokoro")
      ∷ ("INFERENCIA_CHATTERBOX_URL", add_tts "chatterbox")
      ∷ ("INFERENCIA_MISOTTS_URL", add_tts "misotts")
      ∷ ("INFERENCIA_ELEVENLABS_URL", add_tts "elevenlabs")
      ∷ (
        "INFERENCIA_WATCHDOG_INTERVAL",
        λ v. parsed (parse_duration v) (λ d. set_watchdog (λ w. record w { interval = d })),
      )
      ∷ ("INFERENCIA_WATCHDOG_FAIL_THRESHOLD", λ v. parsed (atoi v) set_threshold)
      ∷ (
        "INFERENCIA_WATCHDOG_TIMEOUT",
        λ v. parsed (parse_duration v) (λ d. set_watchdog (λ w. record w { request_timeout = d })),
      )
      ∷ []

  unfoldable pub apply_env_overrides : (String → String) → Config → Config
  apply_env_overrides getenv cfg = run getenv overrides cfg

  module _ (getenv : String → String) (read_file : String → Option String)
      (unmarshal : String → Config → Option Config) where
    unfoldable pub finish : Config → Result LoadError Config
    finish cfg =
        let overridden = apply_env_overrides getenv cfg in verdict overridden (validate overridden)

    unfoldable pub decoded : Option Config → Result LoadError Config
    unfolding finish
    decoded none = err parse_failed
    decoded (some cfg) = finish cfg

    unfoldable pub read_config : Option String → Result LoadError Config
    unfolding decoded
    read_config none = err read_failed
    read_config (some text) = decoded (unmarshal text defaults)

    unfoldable pub load : String → Result LoadError Config
    unfolding finish read_config
    load path = if path == "" then finish defaults else read_config (read_file path)
