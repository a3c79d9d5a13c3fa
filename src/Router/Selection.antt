-- ===== src/Router/Selection.antt =====
-- Every outcome of `selectBackend`.
use inferencia.Common.{
  ℕ, ◌+◌, ◌≤◌, ◌<◌, ◌≡◌, refl, sym, ◌∙◌, ◌≢◌, ◌⊎◌, inl, inr, String, false, List, [], ◌∷◌, arith,
  if◌then◌else◌, ◌==◌, eq_iff, keep, In, In-keep, keep-In, IsRange, Bool-cases, List-cases, Result,
  ok, err,
}
use mathlib.Core.Bool.{false≢true}
use inferencia.LoadBalancer.{in_flight}
use inferencia.Backend.{HealthChecker, healthy}
use inferencia.Router.{
  Capability, BackendInfo, Registry, Error, no_healthy_backend, capability_not_supported, supports,
  backends_by_capability, score_backend, scored, sort_scored, pick_balanced, pick_top, pick_healthy,
  select_backend,
}
use inferencia.Router.Score.{IsOffered, score_backend-ge_50_iff}
use inferencia.Router.Balance.{pick_balanced-IsBalanced}
use inferencia.Router.Top.{tier, pick_top_sorted}
use inferencia.Router.Candidates.{
  IsRegistered, IsCandidate, In-backends_by_capability, backends_by_capability-In, scored-In,
  tier-In, In-tier, scored-ne-nil,
}

module _ {B T : Type 0} (r : Registry B T) (kind : Capability) (model : String)
    (hc : HealthChecker) where
  -- `info` is a candidate; if a model is named, `info` offers it and no candidate scores higher; no
  -- candidate of the same rank has fewer requests in flight; only the count of `info` grows, by one.
  pub record IsRouted (r' : Registry B T) (info : BackendInfo B T) : Type 0 where
    pub candidate : IsCandidate r kind hc info
    pub offered : model ≢ "" → IsOffered info.models kind model
    pub best :
        model ≢ ""
        → (other : BackendInfo B T) → IsCandidate r kind hc other
        → score_backend other kind model ≤ score_backend info kind model
    pub least :
        (other : BackendInfo B T)
        → IsCandidate r kind hc other
        → (model ≢ "" → score_backend other kind model ≡ score_backend info kind model)
        → in_flight r.lb info.name ≤ in_flight r.lb other.name
    pub counted :
        (name : String)
        → in_flight r'.lb name
          ≡ (if info.name == name then in_flight r.lb name + 1 else in_flight r.lb name)
    pub kept : (r'.backends ≡ r.backends) × (r'.routes ≡ r.routes)

  -- The outcome over the healthy candidates `infos`.
  abbrev pub IsOutcome : Result Error (BackendInfo B T) × Registry B T → Type 0
  IsOutcome result =
      ((result ≡ (err no_healthy_backend, r))
        × ((other : BackendInfo B T)
            → IsCandidate r kind hc other
            → (model ≢ "") × (¬ IsOffered other.models kind model)))
      ⊎ ((info : BackendInfo B T) × (r' : Registry B T) × (result ≡ (ok info, r'))
          × IsRouted r' info)

  module _ (infos : List (BackendInfo B T))
      (sound : (info : BackendInfo B T) → In info infos → IsCandidate r kind hc info)
      (complete : (info : BackendInfo B T) → IsCandidate r kind hc info → In info infos) where
    unnamed-IsOutcome :
        infos ≢ []
        → model ≡ ""
        → IsOutcome (ok (pick_balanced r infos).0, (pick_balanced r infos).1)
    unnamed-IsOutcome h e =
        let b = pick_balanced-IsBalanced r infos h in
        inr (
          (pick_balanced r infos).0,
          (pick_balanced r infos).1,
          refl,
          record {
            candidate = sound _ b.candidate;
            offered = λ set. absurd (set e);
            best = λ set. absurd (set e);
            least = λ other c _. b.least other (complete other c);
            counted = b.counted;
            kept = b.kept;
          },
        )

    not-IsOffered :
        ((s : BackendInfo B T × ℕ) → In s (scored kind model infos) → s.1 < 50)
        → (other : BackendInfo B T) → IsCandidate r kind hc other
        → ¬ IsOffered other.models kind model
    not-IsOffered low other c o = absurd (
        omega (
          arith,
          low (other, score_backend other kind model)
              (scored-In kind model infos other (complete other c)),
          (score_backend-ge_50_iff other kind model).1 o,
        ))

    routed :
        model ≢ ""
        → (top : ℕ) → 50 ≤ top
        → ((s : BackendInfo B T × ℕ) → In s (scored kind model infos) → s.1 ≤ top)
        → tier top (scored kind model infos) ≢ []
        → let (info, r') = pick_balanced r (tier top (scored kind model infos)) in IsRouted r' info
    routed set top high max some_tied =
        let b = pick_balanced-IsBalanced r (tier top (scored kind model infos)) some_tied in
        let (listed, at_top) = In-tier kind model infos _ top b.candidate in
        record {
          candidate = sound _ listed;
          offered = λ _.
              (score_backend-ge_50_iff (pick_balanced r (tier top (scored kind model infos))).0 kind
                  model).0
                (rw at_top high);
          best = λ _ other c. rw at_top (
              max (other, score_backend other kind model)
                (scored-In kind model infos other (complete other c)));
          least = λ other c same.
              b.least other
                (tier-In kind model infos other top (complete other c) (same set ∙ at_top));
          counted = b.counted;
          kept = b.kept;
        }

    named-IsOutcome :
        infos ≢ [] → model ≢ "" → IsOutcome (pick_top r (sort_scored (scored kind model infos)))
    named-IsOutcome h set =
        elim (pick_top_sorted r (scored kind model infos) (scored-ne-nil kind model infos h)) [
          | inl (e, low) ↦ inl (e, λ other c. (set, λ o. not-IsOffered low other c o))
          | inr (top, high, max, some_tied, e) ↦ inr (_, _, e, routed set top high max some_tied)
        ]

  pick_healthy-IsOutcome :
      (infos : List (BackendInfo B T))
      → ((info : BackendInfo B T) → In info infos → IsCandidate r kind hc info)
      → ((info : BackendInfo B T) → IsCandidate r kind hc info → In info infos)
      → IsOutcome (pick_healthy r kind model infos)
  unfolding pick_healthy
  pick_healthy-IsOutcome [] sound complete = inl (refl, λ other c. absurd (complete other c))
  pick_healthy-IsOutcome (c ∷ cs) sound complete = elim (Bool-cases (model == "")) [
    | inl unnamed ↦
        rw unnamed
          (unnamed-IsOutcome (c ∷ cs) sound complete (λ e. cc) ((eq_iff model "").0 unnamed))
    | inr named ↦ rw named (
        named-IsOutcome (c ∷ cs) sound complete (λ e. cc)
          (λ e. false≢true (sym named ∙ (eq_iff model "").1 e)))
  ]

module _ {B T : Type 0} (r : Registry B T) (kind : Capability) (model : String) (hc : HealthChecker)
    (entries : List (String × BackendInfo B T)) where
  abbrev able : List (BackendInfo B T)
  able = backends_by_capability kind entries

  select_backend_none :
      able ≡ [] → select_backend r kind model hc entries ≡ (err capability_not_supported, r)
  unfolding select_backend
  select_backend_none e = ground arith

  select_backend_some :
      able ≢ []
      → select_backend r kind model hc entries
        ≡ pick_healthy r kind model (keep (λ (i : BackendInfo B T). healthy hc i.name) able)
  unfolding select_backend
  select_backend_some h = ground arith

  unsupported :
      IsRange entries r.backends
      → able ≡ []
      → (info : BackendInfo B T) → IsRegistered r info
      → supports kind info ≡ false
  unsupported range e info reg = elim (Bool-cases (supports kind info)) [
    | inl h ↦ absurd (rw e at (backends_by_capability-In r entries range kind info reg h))
    | inr h ↦ h
  ]

  healthy-IsOutcome :
      IsRange entries r.backends
      → IsOutcome r kind model hc
          (pick_healthy r kind model (keep (λ (i : BackendInfo B T). healthy hc i.name) able))
  healthy-IsOutcome range =
      pick_healthy-IsOutcome r kind model hc _
        (λ info m.
          let (listed, passes) = In-keep (λ (i : BackendInfo B T). healthy hc i.name) able info m in
          let (reg, capable) = In-backends_by_capability r entries range kind info listed in
          (reg, capable, passes))
        (λ info c.
          keep-In (λ (i : BackendInfo B T). healthy hc i.name) able info
            (backends_by_capability-In r entries range kind info c.0 c.1) c.2)

pub select_backend-IsRouted :
    {B T : Type 0} (r : Registry B T) (kind : Capability) (model : String) (hc : HealthChecker)
    (entries : List (String × BackendInfo B T))
    → IsRange entries r.backends
    → ((select_backend r kind model hc entries ≡ (err capability_not_supported, r))
        × ((info : BackendInfo B T) → IsRegistered r info → supports kind info ≡ false))
      ⊎ IsOutcome r kind model hc (select_backend r kind model hc entries)
select_backend-IsRouted r kind model hc entries range =
    elim (List-cases (backends_by_capability kind entries)) [
      | inl nobody ↦ inl (
        select_backend_none r kind model hc entries nobody,
        unsupported r kind model hc entries range nobody,
      )
      | inr somebody ↦ inr (
          rw (select_backend_some r kind model hc entries somebody)
            (healthy-IsOutcome r kind model hc entries range))
    ]
