-- ===== src/Config/Tests.antt =====
-- Configurations the theorems apply to: the defaults, an environment that sets nothing, and one
-- that sets a port and a TTS server.
use inferencia.Common.{
  [], ◌≡◌, refl, String, Char, Option, none, ◌==◌, arith, if◌then◌else◌, ℤ, pos, ok,
}
use inferencia.Config.{Config, Float, nan, Watchdog, defaults, validate, validate_backends}
use inferencia.Config.Environment.{apply_env_overrides, load, finish}
use inferencia.Config.Validation.{IsValid, validate-nil_iff}
use inferencia.Config.Loading.{
  IsSound, apply_env_overrides_unset, apply_env_overrides-IsSound, load-IsValid, defaults-IsValid,
  validate-unchecked,
}

abbrev same : Char → Char
same c = c

abbrev no_float : String → Option Float
no_float v = none

abbrev no_duration : String → Option ℤ
no_duration v = none

abbrev empty : String → String
empty name = ""

abbrev env : String → String
env name =
    if name == "INFERENCIA_PORT"
    then "9090"
    else if name == "INFERENCIA_KOKORO_URL"
    then " http://localhost:8880 "
    else ""

abbrev no_file : String → Option String
no_file path = none

abbrev no_yaml : String → Config → Option Config
no_yaml text cfg = none

port_from_env : (apply_env_overrides same no_float no_duration env defaults).server.port ≡ pos 9090
unfolding apply_env_overrides defaults
port_from_env = refl

validate-nil_iff_example : IsValid defaults
validate-nil_iff_example = (validate-nil_iff defaults).0 defaults-IsValid

apply_env_overrides_unset_example :
    apply_env_overrides same no_float no_duration empty defaults ≡ defaults
apply_env_overrides_unset_example =
    apply_env_overrides_unset same no_float no_duration empty defaults (λ name. refl)

defaults-IsSound : IsSound defaults
unfolding defaults
defaults-IsSound = (tt, omega arith)

apply_env_overrides-IsSound_example :
    IsSound (apply_env_overrides same no_float no_duration env defaults)
apply_env_overrides-IsSound_example =
    apply_env_overrides-IsSound same no_float no_duration env defaults defaults-IsSound

loaded : load same no_float no_duration empty no_file no_yaml "" ≡ ok defaults
unfolding load finish apply_env_overrides validate validate_backends defaults
loaded = refl

load-IsValid_example : IsValid defaults
load-IsValid_example =
    load-IsValid same no_float no_duration empty no_file no_yaml "" defaults loaded

stopped : Watchdog
stopped = record { interval = pos 0; fail_threshold = pos 0; request_timeout = pos 0 }

validate-unchecked_example :
    validate (record defaults {
      ratelimit = record { requests_per_second = nan; burst = defaults.ratelimit.burst };
      watchdog = stopped;
    })
    ≡ []
validate-unchecked_example = validate-unchecked defaults stopped defaults-IsValid
