-- ===== src/Router/Candidates.antt =====
-- The backends that `selectBackend` considers, and the tiers of their scores.
use inferencia.Common.{
  ℕ, ◌≡◌, refl, sym, ap, ◌∙◌, ◌≢◌, String, true, some, List, [], ◌∷◌, eqb_iff, eqb, get, In,
  In-keep, keep-In, In-map, map-In, IsRange,
}
use inferencia.Backend.{HealthChecker, healthy}
use inferencia.Router.{
  Capability, BackendInfo, Registry, supports, all_backends, backends_by_capability, score_backend,
  scored,
}
use inferencia.Router.Top.{tier}

module _ {B T : Type 0} where
  abbrev pub IsRegistered : Registry B T → BackendInfo B T → Type 0
  IsRegistered r info = (k : String) × (get k r.backends ≡ some info)

  -- Registered, capable of the kind and healthy.
  abbrev pub IsCandidate : Registry B T → Capability → HealthChecker → BackendInfo B T → Type 0
  IsCandidate r kind hc info =
      IsRegistered r info × (supports kind info ≡ true) × (healthy hc info.name ≡ true)

module _ {B T : Type 0} (r : Registry B T) (entries : List (String × BackendInfo B T))
    (range : IsRange entries r.backends) where
  In-all_backends : (info : BackendInfo B T) → In info (all_backends entries) → IsRegistered r info
  unfolding all_backends
  In-all_backends info m =
      let ((k, i), listed, e) = In-map (λ (x : String × BackendInfo B T). x.1) entries info m in
      (k, rw e (range.sound k i listed))

  all_backends-In : (info : BackendInfo B T) → IsRegistered r info → In info (all_backends entries)
  unfolding all_backends
  all_backends-In info (k, e) =
      map-In (λ (x : String × BackendInfo B T). x.1) entries (k, info) (range.complete k info e)

  pub In-backends_by_capability :
      (kind : Capability) (info : BackendInfo B T)
      → In info (backends_by_capability kind entries)
      → IsRegistered r info × (supports kind info ≡ true)
  unfolding backends_by_capability
  In-backends_by_capability kind info m =
      let (listed, able) = In-keep (supports kind) (all_backends entries) info m in
      (In-all_backends info listed, able)

  pub backends_by_capability-In :
      (kind : Capability) (info : BackendInfo B T)
      → IsRegistered r info
      → supports kind info ≡ true
      → In info (backends_by_capability kind entries)
  unfolding backends_by_capability
  backends_by_capability-In kind info reg able =
      keep-In (supports kind) (all_backends entries) info (all_backends-In info reg) able

module _ {B T : Type 0} (kind : Capability) (model : String) where
  pub scored-In :
      (infos : List (BackendInfo B T)) (info : BackendInfo B T)
      → In info infos
      → In {A = BackendInfo B T × ℕ} (info, score_backend info kind model) (scored kind model infos)
  unfolding scored
  scored-In infos info m =
      map-In (λ (c : BackendInfo B T). (c, score_backend c kind model)) infos info m

  pub tier-In :
      (infos : List (BackendInfo B T)) (info : BackendInfo B T) (top : ℕ)
      → In info infos
      → score_backend info kind model ≡ top
      → In info (tier top (scored kind model infos))
  tier-In infos info top m e =
      map-In (λ (s : BackendInfo B T × ℕ). s.0) _ (info, score_backend info kind model)
        (keep-In (λ (s : BackendInfo B T × ℕ). eqb s.1 top) (scored kind model infos) _
          (scored-In infos info m) ((eqb_iff _ _).1 e))

  pub In-tier :
      (infos : List (BackendInfo B T)) (info : BackendInfo B T) (top : ℕ)
      → In info (tier top (scored kind model infos))
      → In info infos × (score_backend info kind model ≡ top)
  unfolding scored
  In-tier infos info top m =
      let ((i, n), kept, e) = In-map (λ (s : BackendInfo B T × ℕ). s.0) _ info m in
      let (listed, same) =
        In-keep (λ (s : BackendInfo B T × ℕ). eqb s.1 top) (scored kind model infos) (i, n) kept in
      let (c, at_c, e') =
        In-map (λ (c : BackendInfo B T). (c, score_backend c kind model)) infos (i, n) listed in
      let is_c : info ≡ c = e ∙ ap (λ (s : BackendInfo B T × ℕ). s.0) e' in
      let is_n : n ≡ score_backend c kind model = ap (λ (s : BackendInfo B T × ℕ). s.1) e' in
      rw is_c (at_c, sym is_n ∙ (eqb_iff n top).0 same)

  pub scored-ne-nil : (infos : List (BackendInfo B T)) → infos ≢ [] → scored kind model infos ≢ []
  unfolding scored
  scored-ne-nil [] h e = h refl
  scored-ne-nil (c ∷ cs) h e = cc
