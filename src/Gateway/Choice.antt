-- ===== src/Gateway/Choice.antt =====
-- Which backend a chat, embeddings or models request picks while others run.
use inferencia.Common.{◌≡◌, String, Bool, List, In, IsRange}
use inferencia.Backend.{HealthChecker, Registry, healthy_order}
use inferencia.Watchdog.{Watchdog, is_healthy}

module _ {B : Type 0} (name_of : B → String) where
  -- What `PrimaryHealthy` hands to the balancer: the names of `healthyOrderLocked`, in some order of the
  -- map.
  abbrev pub ChatLists : Registry B → HealthChecker → List String → Type 0
  ChatLists r hc names =
      (entries : List (String × B)) × IsRange entries r.backends
      × (names ≡ healthy_order r hc entries)

  -- In some state since the request came, the watchdog judged the backend so.
  abbrev pub WasJudged : List Watchdog → String → Bool → Type 0
  WasJudged ws name verdict = (w : Watchdog) × In w ws × (is_healthy w name ≡ verdict)
