-- ===== src/Watchdog/Tests.antt =====
-- A backend that fails three times, and one that recovers.
use inferencia.Common.{
  ◌<◌, ◌≡◌, refl, String, Bool, true, false, none, some, List, [], ◌∷◌, ltb, ◌==◌, ok, pos,
}
use inferencia.LoadBalancer.{select, acquire}
use inferencia.Router.{BackendInfo}
use inferencia.Backend.{primary_healthy, Registry}
use inferencia.Backend.Tests.{self, two, two-IsConsistent, visits, visits-IsRange}
use inferencia.Watchdog.{Config, new_watchdog, is_healthy, check_backend}
use inferencia.Watchdog.History.{Check, run, streak, threshold, is_healthy-run}
use inferencia.Watchdog.Service.{primary_healthy-below_threshold}

abbrev three : Config
three = record { interval = 30; fail_threshold = pos 3; request_timeout = 5 }

abbrev history : List Check
history = ("mlx", true) ∷ ("mlx", true) ∷ ("ollama", true) ∷ ("mlx", true) ∷ ("ollama", false) ∷ []

mlx_degraded : is_healthy (run (new_watchdog three) history) "mlx" ≡ false
unfolding is_healthy run check_backend new_watchdog
mlx_degraded = refl

is_healthy-run_example :
    is_healthy (run (new_watchdog three) history) "mlx"
    ≡ ltb (streak "mlx" 0 history) (threshold (pos 3))
is_healthy-run_example = is_healthy-run three history "mlx"

abbrev down : String → Bool
down name = name == "mlx"

abbrev kokoro : BackendInfo String String
kokoro = record {
  name = "kokoro";
  backend = none;
  tts_backend = some "kokoro";
  capabilities = 2 ∷ [];
  models = [];
}

abbrev after : Registry String
after = record two { lb = record { active = ("ollama", 1) ∷ []; rr = 0 } }

serves_ollama :
    primary_healthy two (some (is_healthy (run (new_watchdog three) history))) visits
    ≡ (ok (some "ollama"), after)
unfolding primary_healthy select acquire is_healthy run check_backend new_watchdog
serves_ollama = refl

primary_healthy-below_threshold_example : streak "ollama" 0 history < 3
primary_healthy-below_threshold_example =
    primary_healthy-below_threshold self two visits three history after "ollama" two-IsConsistent
      visits-IsRange serves_ollama
