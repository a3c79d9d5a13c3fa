-- ===== src/Gateway/Requests.antt =====
-- What `PrimaryHealthy` of internal/backend/backend.go, `selectBackend` of internal/router/router.go and
-- `ReleaseBackend` of both do to a load balancer, in the steps that other requests may come between.
-- Neither excludes other requests: they ask the watchdog about one backend after the other, and the
-- balancer locks `Select`, `Acquire` and `Release` one by one.
use inferencia.Common.{String, Bool, ◌≡◌, ◌≢◌, some, List, [], ◌∷◌, In, map}
use inferencia.LoadBalancer.{LoadBalancer, new_load_balancer, select, acquire, release}
use inferencia.Backend.{HealthChecker}
use inferencia.Watchdog.{Config, Watchdog, new_watchdog, is_healthy, check_backend}

-- Where a request stands. Until it has its list of names it remembers the states that the watchdog has
-- had since it came; `left` is a request that got an error or has given its backend back.
pub data Phase : Type 0 where
  entered : List Watchdog → Phase
  listed : List Watchdog → List String → Phase
  picked : String → Phase
  holding : String → Phase
  left : Phase

-- The balancer of a registry, the requests that have come to it, and the watchdog.
pub record Hall : Type 0 where
  pub lb : LoadBalancer
  pub requests : List Phase
  pub watchdog : Watchdog

unfoldable pub new_hall : Config → Hall
new_hall cfg = record { lb = new_load_balancer; requests = []; watchdog = new_watchdog cfg }

abbrev pub see : Watchdog → Phase → Phase
see w (entered ws) = entered (w ∷ ws)
see w (listed ws names) = listed ws names
see w (picked name) = picked name
see w (holding name) = holding name
see w left = left

-- One request goes from the phase `p` to `q`, and the others stay.
pub data Turns (p q : Phase) : List Phase → List Phase → Type 0 where
  first : {ps : List Phase} → Turns p q (p ∷ ps) (q ∷ ps)
  later : {ps qs : List Phase} (o : Phase) → Turns p q ps qs → Turns p q (o ∷ ps) (o ∷ qs)

-- Each answer is the watchdog's in one of its states since the request came.
abbrev pub IsAnswered : List Watchdog → (String → Bool) → Type 0
IsAnswered ws answers =
    (name : String) → (w : Watchdog) × In w ws × (answers name ≡ is_healthy w name)

unfoldable pub selects : Hall → List String → List Phase → Hall
selects s names ps = record s { lb = (select s.lb names).1; requests = ps }

unfoldable pub acquires : Hall → String → List Phase → Hall
acquires s name ps = record s { lb = acquire s.lb name; requests = ps }

unfoldable pub releases : Hall → String → List Phase → Hall
releases s name ps = record s { lb = release s.lb name; requests = ps }

-- One check of the watchdog.
unfoldable pub checks : Hall → String → Bool → Hall
checks s name failed =
    let w = check_backend s.watchdog name failed in
    record s { watchdog = w; requests = map (see w) s.requests }

-- `lists hc names` says that the registry, asked with the answers `hc`, hands `names` to its balancer.
module _ (lists : HealthChecker → List String → Type 0) where
  pub data Step (s : Hall) : Hall → Type 0 where
    enter : Step s (record s { requests = entered (s.watchdog ∷ []) ∷ s.requests })
    list :
        (ws : List Watchdog) (answers : String → Bool) (names : List String) (ps : List Phase)
        → IsAnswered ws answers
        → lists (some answers) names
        → names ≢ []
        → Turns (entered ws) (listed ws names) s.requests ps
        → Step s (record s { requests = ps })
    refuse :
        (ws : List Watchdog) (answers : String → Bool) (ps : List Phase)
        → IsAnswered ws answers
        → lists (some answers) []
        → Turns (entered ws) left s.requests ps
        → Step s (record s { requests = ps })
    pick :
        (ws : List Watchdog) (names : List String) (ps : List Phase)
        → Turns (listed ws names) (picked (select s.lb names).0) s.requests ps
        → Step s (selects s names ps)
    take :
        (name : String) (ps : List Phase)
        → Turns (picked name) (holding name) s.requests ps
        → Step s (acquires s name ps)
    give_back :
        (name : String) (ps : List Phase)
        → Turns (holding name) left s.requests ps
        → Step s (releases s name ps)
    check : (name : String) (failed : Bool) → Step s (checks s name failed)

  pub data Reach (s : Hall) : Hall → Type 0 where
    here : Reach s s
    next : {h k : Hall} → Reach s h → Step h k → Reach s k
