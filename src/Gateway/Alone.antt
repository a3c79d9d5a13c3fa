-- ===== src/Gateway/Alone.antt =====
-- `PrimaryHealthy` where no other request and no check comes between its steps.
use inferencia.Common.{◌≡◌, ◌⊎◌, String, Option, some, ◌∷◌, Result, ok, err}
use inferencia.Backend
use inferencia.Backend.{Registry}
use inferencia.Gateway.Requests.{holding, left, Hall, Reach}
use inferencia.Gateway.Choice.{ChatLists}

module _ {B : Type 0} (name_of : B → String) (r : Registry B) (s : Hall) where
  -- The result and the balancer of a call are those that steps from `s` lead to: either an error, and
  -- the request has left; or a backend, and the request holds its name.
  abbrev pub IsReached : Result Backend.Error (Option B) × Registry B → Type 0
  IsReached (result, r') =
      (s' : Hall) × Reach (ChatLists name_of r) s s'
      × (s'.lb ≡ r'.lb)
      × (s'.watchdog ≡ s.watchdog)
      × (((e : Backend.Error) × (result ≡ err e) × (s'.requests ≡ left ∷ s.requests))
          ⊎ ((b : B) × (result ≡ ok (some b)) × (s'.requests ≡ holding (name_of b) ∷ s.requests)))
