-- ===== src/Config.antt =====
-- internal/config/config.go: the types and the defaults.
pub mod Environment
pub mod Loading
mod Tests
pub mod Validation
use inferencia.Common.{
  ℕ, zero, suc, ◌*◌, ◌^◌, String, Bool, true, false, not, ◌&&◌, ◌||◌, List, [], ◌∷◌, ◌++◌, ◌==◌,
  any, if◌then◌else◌, ℤ, pos, negsuc, ltb_ℤ,
}

-- Go's `float64`; a finite one is the fraction `num / suc den_pred`.
pub data Float : Type 0 where
  finite : ℤ → ℕ → Float
  inf neg_inf nan : Float

-- `f <= 0`, which is false of NaN.
abbrev pub at_most_zero : Float → Bool
at_most_zero (finite (pos zero) d) = true
at_most_zero (finite (pos (suc n)) d) = false
at_most_zero (finite (negsuc n) d) = true
at_most_zero inf = false
at_most_zero neg_inf = true
at_most_zero nan = false

-- `time.Duration`: nanoseconds.
abbrev pub seconds : ℕ → ℤ
seconds n = pos (n * 10 ^ 9)

pub record Server : Type 0 where
  pub host : String
  pub port : ℤ
  pub read_timeout : ℤ
  pub write_timeout : ℤ

pub record Auth : Type 0 where
  pub keys_file : String

pub record Backend : Type 0 where
  pub name : String
  pub type : String
  pub url : String
  pub timeout : ℤ
  pub health_timeout : ℤ

pub record TtsBackend : Type 0 where
  pub name : String
  pub url : String
  pub timeout : ℤ

pub record RateLimit : Type 0 where
  pub requests_per_second : Float
  pub burst : ℤ

pub record Log : Type 0 where
  pub level : String
  pub format : String
  pub cloud_format : String

pub record Observability : Type 0 where
  pub otel_enabled : Bool
  pub otel_endpoint : String
  pub otel_service_name : String

pub record Watchdog : Type 0 where
  pub interval : ℤ
  pub fail_threshold : ℤ
  pub request_timeout : ℤ

pub record Config : Type 0 where
  pub server : Server
  pub auth : Auth
  pub backends : List Backend
  pub tts_backends : List TtsBackend
  pub ratelimit : RateLimit
  pub log : Log
  pub observability : Observability
  pub watchdog : Watchdog

unfoldable pub defaults : Config
defaults = record {
  server = record {
    host = "127.0.0.1";
    port = pos 8080;
    read_timeout = seconds 30;
    write_timeout = seconds 120;
  };
  auth = record { keys_file = "./keys.txt" };
  backends =
      record {
        name = "ollama";
        type = "ollama";
        url = "http://localhost:11434";
        timeout = seconds 300;
        health_timeout = seconds 5;
      }
      ∷ [];
  tts_backends = [];
  ratelimit = record { requests_per_second = finite (pos 10) 0; burst = pos 20 };
  log = record { level = "info"; format = "json"; cloud_format = "" };
  observability = record {
    otel_enabled = false;
    otel_endpoint = "";
    otel_service_name = "inferencia";
  };
  watchdog = record { interval = seconds 30; fail_threshold = pos 3; request_timeout = seconds 5 };
}

-- An error of `validate`: the rule that is broken, with the value that its message quotes.
pub data Error : Type 0 where
  port_out_of_range : ℤ → Error
  no_backends : Error
  name_required : ℕ → Error
  type_required : ℕ → Error
  url_required : ℕ → Error
  rate_not_positive : Error
  burst_too_small : Error
  unknown_level : String → Error
  unknown_format : String → Error
  unknown_cloud_format : String → Error
  otel_endpoint_required : Error

abbrev check : Bool → Error → List Error
check broken e = if broken then e ∷ [] else []

abbrev pub levels : List String
levels = "debug" ∷ "info" ∷ "warn" ∷ "error" ∷ []

abbrev pub formats : List String
formats = "json" ∷ "text" ∷ []

abbrev pub cloud_formats : List String
cloud_formats = "" ∷ "gcp" ∷ "gcp_with_resource" ∷ []

abbrev pub join : List (List Error) → List Error
join [] = []
join (es ∷ ess) = es ++ join ess

backend_errors : ℕ → Backend → List Error
backend_errors i b = join (
    check (b.name == "") (name_required i)
    ∷ check (b.type == "") (type_required i)
    ∷ check (b.url == "") (url_required i)
    ∷ [])

-- The loop over the backends, from index `i`.
pub validate_backends : ℕ → List Backend → List Error
unfolding backend_errors
validate_backends i [] = []
validate_backends i (b ∷ bs) = backend_errors i b ++ validate_backends (suc i) bs

abbrev is_nil : List Backend → Bool
is_nil [] = true
is_nil (b ∷ bs) = false

-- The errors that are joined; there is none if the configuration is accepted.
unfoldable pub validate : Config → List Error
validate cfg = join (
    check (ltb_ℤ cfg.server.port (pos 1) || ltb_ℤ (pos 65535) cfg.server.port)
      (port_out_of_range cfg.server.port)
    ∷ check (is_nil cfg.backends) no_backends
    ∷ validate_backends 0 cfg.backends
    ∷ check (at_most_zero cfg.ratelimit.requests_per_second) rate_not_positive
    ∷ check (ltb_ℤ cfg.ratelimit.burst (pos 1)) burst_too_small
    ∷ check (not (any (◌==◌ cfg.log.level) levels)) (unknown_level cfg.log.level)
    ∷ check (not (any (◌==◌ cfg.log.format) formats)) (unknown_format cfg.log.format)
    ∷ check (not (any (◌==◌ cfg.log.cloud_format) cloud_formats))
        (unknown_cloud_format cfg.log.cloud_format)
    ∷ check (cfg.observability.otel_enabled && (cfg.observability.otel_endpoint == ""))
        otel_endpoint_required
    ∷ [])
