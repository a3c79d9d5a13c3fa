-- ===== src/Router.antt =====
-- internal/router: model.go, registry.go and router.go. `B` and `T` are the chat and the TTS backends.
-- Each method is one call that nothing comes between; of `selectBackend`, which takes no lock,
-- Gateway/Requests has the steps on the balancer. `range` over the map takes its order as the argument `entries`.
pub mod Score
pub mod Sorting
pub mod Balance
pub mod Top
pub mod Candidates
pub mod Selection
pub mod Tests
use Prim.Native.String.{len, slice}
use inferencia.Common.{
  ℕ, zero, suc, ◌+◌, String, Bool, true, false, ◌&&◌, Option, none, some, List, [], ◌∷◌, ◌++◌,
  if◌then◌else◌, ◌==◌, eqb, ltb, leb, length, get, put, read, map, keep, any, Result, ok, err,
}
use inferencia.LoadBalancer.{LoadBalancer, new_load_balancer}
use inferencia.LoadBalancer
use inferencia.Backend.{HealthChecker, healthy}

-- `Capability` is an integer type with three named values.
abbrev pub Capability : Type 0
Capability = ℕ

abbrev pub cap_chat : Capability
cap_chat = 0

abbrev pub cap_embed : Capability
cap_embed = 1

abbrev pub cap_tts : Capability
cap_tts = 2

unfoldable pub capability_string : Capability → String
capability_string zero = "chat"
capability_string (suc zero) = "embed"
capability_string (suc (suc zero)) = "tts"
capability_string (suc (suc (suc n))) = "unknown"

pub record ModelInfo : Type 0 where
  pub id : String
  pub provider : String
  pub kind : Capability

pub record ModelRoute : Type 0 where
  pub model : String
  pub capability : Capability
  pub backend_name : String

pub record BackendInfo (B T : Type 0) : Type 0 where
  pub name : String
  pub backend : Option B
  pub tts_backend : Option T
  pub capabilities : List Capability
  pub models : List ModelInfo

-- `ErrCapabilityNotSupported`, and `ErrNoHealthyBackend` of the backend package.
pub data Error : Type 0 where
  capability_not_supported no_healthy_backend : Error

pub record Registry (B T : Type 0) : Type 0 where
  pub backends : List (String × BackendInfo B T)
  pub routes : List ModelRoute
  pub lb : LoadBalancer

-- One round of the first loop of `scoreBackend`.
model_score : ModelInfo → Capability → String → ℕ
model_score m kind model =
    if m.id == model && eqb m.kind kind
    then 100
    else if leb (len model) (len m.id) && (slice m.id 0 (len model) == model && eqb m.kind kind)
    then 50
    else 0

models_score : List ModelInfo → Capability → String → ℕ
unfolding model_score
models_score [] kind model = 0
models_score (m ∷ ms) kind model = model_score m kind model + models_score ms kind model

module _ {B T : Type 0} where
  unfoldable pub new_registry : Registry B T
  new_registry = record { backends = []; routes = []; lb = new_load_balancer }

  routes_of : BackendInfo B T → List ModelRoute
  routes_of info =
      map
        (λ (m : ModelInfo). record { model = m.id; capability = m.kind; backend_name = info.name })
        info.models

  unfoldable pub register : Registry B T → BackendInfo B T → Registry B T
  unfolding routes_of
  register r info = record r {
    backends = put info.name info r.backends;
    routes = r.routes ++ routes_of info;
  }

  unfoldable pub get_backend : Registry B T → String → Option (BackendInfo B T)
  get_backend r name = get name r.backends

  unfoldable pub all_backends : List (String × BackendInfo B T) → List (BackendInfo B T)
  all_backends entries = map (λ (e : String × BackendInfo B T). e.1) entries

  unfoldable pub registry_len : Registry B T → ℕ
  registry_len r = length r.backends

  abbrev pub supports : Capability → BackendInfo B T → Bool
  supports kind info = any (λ c. eqb c kind) info.capabilities

  unfoldable pub backends_by_capability :
      Capability → List (String × BackendInfo B T) → List (BackendInfo B T)
  unfolding all_backends
  backends_by_capability kind entries = keep (supports kind) (all_backends entries)

  unfoldable pub score_backend : BackendInfo B T → Capability → String → ℕ
  unfolding models_score
  score_backend info kind model =
      models_score info.models kind model + (if supports kind info then 10 else 0)

  -- `byName`, built by the loop of `pickBalanced`.
  by_name :
      List (BackendInfo B T) → List (String × BackendInfo B T) → List (String × BackendInfo B T)
  by_name [] m = m
  by_name (c ∷ cs) m = by_name cs (put c.name c m)

  -- `BackendInfo{}`
  abbrev pub zero_info : BackendInfo B T
  zero_info = record {
    name = "";
    backend = none;
    tts_backend = none;
    capabilities = [];
    models = [];
  }

  pub pick_balanced : Registry B T → List (BackendInfo B T) → BackendInfo B T × Registry B T
  unfolding by_name
  pick_balanced r candidates =
      let (picked, lb) =
        LoadBalancer.select r.lb (map (λ (c : BackendInfo B T). c.name) candidates) in
      (
        read zero_info picked (by_name candidates []),
        record r { lb = LoadBalancer.acquire lb picked },
      )

  -- `sort.SliceStable` by falling score: an entry stays before those that it ties with.
  insert_scored : BackendInfo B T × ℕ → List (BackendInfo B T × ℕ) → List (BackendInfo B T × ℕ)
  insert_scored x [] = x ∷ []
  insert_scored x (y ∷ ys) = if ltb x.1 y.1 then y ∷ insert_scored x ys else x ∷ y ∷ ys

  pub sort_scored : List (BackendInfo B T × ℕ) → List (BackendInfo B T × ℕ)
  unfolding insert_scored
  sort_scored [] = []
  sort_scored (x ∷ xs) = insert_scored x (sort_scored xs)

  -- The part of `selectBackend` below the sort; its list is never empty, so the first clause, where
  -- the code would panic, is not reached.
  pub pick_top :
      Registry B T → List (BackendInfo B T × ℕ) → Result Error (BackendInfo B T) × Registry B T
  pick_top r [] = (err no_healthy_backend, r)
  pick_top r ((info, top) ∷ rest) =
      if ltb top 50
      then (err no_healthy_backend, r)
      else let tier = keep (λ (s : BackendInfo B T × ℕ). eqb s.1 top) ((info, top) ∷ rest) in
        let (picked, r') = pick_balanced r (map (λ (s : BackendInfo B T × ℕ). s.0) tier) in
        (ok picked, r')

  pub scored : Capability → String → List (BackendInfo B T) → List (BackendInfo B T × ℕ)
  scored kind model infos = map (λ (c : BackendInfo B T). (c, score_backend c kind model)) infos

  -- The part of `selectBackend` below the health check.
  pub pick_healthy :
      Registry B T
      → Capability
      → String
      → List (BackendInfo B T)
      → Result Error (BackendInfo B T) × Registry B T
  unfolding pick_top sort_scored scored
  pick_healthy r kind model infos = elim infos [
    | [] ↦ (err no_healthy_backend, r)
    | c ∷ cs ↦
        if model == ""
        then (let (picked, r') = pick_balanced r (c ∷ cs) in (ok picked, r'))
        else pick_top r (sort_scored (scored kind model (c ∷ cs)))
  ]

  unfoldable pub select_backend :
      Registry B T
      → Capability
      → String
      → HealthChecker
      → List (String × BackendInfo B T)
      → Result Error (BackendInfo B T) × Registry B T
  unfolding pick_healthy
  select_backend r kind model hc entries = elim (backends_by_capability kind entries) [
    | [] ↦ (err capability_not_supported, r)
    | c ∷ cs ↦
        pick_healthy r kind model (keep (λ (i : BackendInfo B T). healthy hc i.name) (c ∷ cs))
  ]

  unfoldable pub release_backend : Registry B T → String → Registry B T
  release_backend r name = record r { lb = LoadBalancer.release r.lb name }
