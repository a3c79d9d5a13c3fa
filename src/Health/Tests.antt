-- ===== src/Health/Tests.antt =====
-- Two chat backends of which one is down, a TTS entry without a backend, and no backend at all.
use inferencia.Common.{◌≡◌, refl, String, Option, none, some, List, [], ◌∷◌, err}
use inferencia.ApiError.{GoError}
use inferencia.Router.{BackendInfo}
use inferencia.Adapter.{plain}
use inferencia.Adapter.Interfaces.{ChatBackend, TtsBackend}
use inferencia.Health.{health_status}
use inferencia.Health.Tally.{all_probes}
use inferencia.Health.Summary.{IsSummary, health_status-IsSummary}

abbrev server : String → Option GoError → ChatBackend
server name probe = record {
  name = name;
  health = probe;
  chat_completion = λ req. err (plain "no model");
  chat_completion_stream = λ send req conn. (none, conn);
  list_models = err (plain "no model");
  create_embedding = λ req. err (plain "no model");
}

abbrev chats : List ChatBackend
chats = server "ollama" none ∷ server "mlx" (some (plain "connection refused")) ∷ []

abbrev speech : Option (List (BackendInfo ChatBackend TtsBackend))
speech = some (
    record { name = "kokoro"; backend = none; tts_backend = none; capabilities = []; models = [] }
    ∷ [])

degraded : (health_status "dev" "now" chats speech).0 ≡ 503
unfolding health_status
degraded = refl

health_status-IsSummary_example :
    IsSummary (all_probes chats speech) (health_status "dev" "now" chats speech)
health_status-IsSummary_example = health_status-IsSummary "dev" "now" chats speech
