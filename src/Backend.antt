-- ===== src/Backend.antt =====
-- internal/backend/backend.go (the registry) and health.go. A backend is any `B` with a name. Each
-- method is one call that nothing comes between; of `PrimaryHealthy`, whose read lock requests share,
-- Gateway/Requests has the steps. `range` over the map takes its order as the argument `entries`.
pub mod Consistency
pub mod Order
pub mod Selection
pub mod Tests
use inferencia.Common.{
  String, Bool, true, ◌&&◌, not, Option, none, some, List, [], ◌∷◌, ◌++◌, if◌then◌else◌, ◌==◌, get,
  put, map, keep, Result, ok, err,
}
use inferencia.LoadBalancer.{LoadBalancer, new_load_balancer}
use inferencia.LoadBalancer

-- The sentinel errors; `Get` adds the name that it looked for.
pub data Error : Type 0 where
  backend_not_found : Option String → Error
  no_healthy_backend : Error

-- A `HealthChecker`, or nil.
abbrev pub HealthChecker : Type 0
HealthChecker = Option (String → Bool)

-- `hc == nil || hc.IsHealthy(name)`
abbrev pub healthy : HealthChecker → String → Bool
healthy none name = true
healthy (some is_healthy) name = is_healthy name

pub record Registry (B : Type 0) : Type 0 where
  pub backends : List (String × B)
  pub primary : String
  pub lb : LoadBalancer

module _ {B : Type 0} where
  unfoldable pub new_registry : Registry B
  new_registry = record { backends = []; primary = ""; lb = new_load_balancer }

  unfoldable pub register : (B → String) → Registry B → B → Registry B
  register name_of r b = record r {
    backends = put (name_of b) b r.backends;
    primary = if r.primary == "" then name_of b else r.primary;
  }

  unfoldable pub get_backend : Registry B → String → Result Error B
  get_backend r name =
      let wanted = if name == "" then r.primary else name in
      elim (get wanted r.backends) [ none ↦ err (backend_not_found (some wanted)) | some b ↦ ok b ]

  unfoldable pub primary_backend : Registry B → Result Error B
  unfolding get_backend
  primary_backend r = get_backend r ""

  -- `All`, over the map in the order of `entries`.
  unfoldable pub all_backends : List (String × B) → List B
  all_backends entries = map (λ (e : String × B). e.1) entries

  -- The primary stands first, if it is set and healthy.
  lead : Registry B → HealthChecker → List String
  lead r hc = if not (r.primary == "") && healthy hc r.primary then r.primary ∷ [] else []

  -- The names that the loop over the map appends.
  others : Registry B → HealthChecker → List String → List String
  others r hc names = keep (λ name. not (name == r.primary) && healthy hc name) names

  unfoldable pub healthy_order : Registry B → HealthChecker → List (String × B) → List String
  unfolding lead others
  healthy_order r hc entries = lead r hc ++ others r hc (map (λ (e : String × B). e.0) entries)

  -- The tail of `PrimaryHealthy`, over the healthy names.
  pick_primary : Registry B → List String → Result Error (Option B) × Registry B
  pick_primary r [] = (err no_healthy_backend, r)
  pick_primary r (name ∷ names) =
      let (picked, lb) = LoadBalancer.select r.lb (name ∷ names) in
      (ok (get picked r.backends), record r { lb = LoadBalancer.acquire lb picked })

  -- `ok none` would be a nil backend.
  unfoldable pub primary_healthy :
      Registry B → HealthChecker → List (String × B) → Result Error (Option B) × Registry B
  unfolding pick_primary healthy_order
  primary_healthy r hc entries = elim r.backends [
    | [] ↦ (err (backend_not_found none), r)
    | _ ∷ _ ↦ pick_primary r (healthy_order r hc entries)
  ]

  unfoldable pub release_backend : Registry B → String → Registry B
  release_backend r name = record r { lb = LoadBalancer.release r.lb name }
