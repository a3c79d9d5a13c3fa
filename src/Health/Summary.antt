-- ===== src/Health/Summary.antt =====
-- The counts and the code of the consolidated health check.
use inferencia.Common.{
  ℕ, ◌<◌, ◌≡◌, ◌≢◌, refl, ◌∙◌, ◌⊎◌, inl, inr, String, Option, List, [], ◌∷◌, ◌==◌, if◌then◌else◌,
  arith, eqb, length, Bool-cases, eqb_iff,
}
use inferencia.ApiError.{GoError}
use inferencia.Router.{BackendInfo}
use inferencia.Adapter.Interfaces.{ChatBackend, TtsBackend}
use inferencia.Health.{
  ServiceStatus, Report, HealthStatusResponse, new_report, completed_of, completed, health_status,
}
use inferencia.Health.Tally.{failures, passes, all_probes, IsTally, checked-IsTally}

-- What the code and the response say of the results `ps` of the probes.
abbrev pub IsSummary : List (Option GoError) → ℕ × HealthStatusResponse → Type 0
IsSummary ps (code, resp) =
    ((ps ≡ [])
      × (code ≡ 503)
      × (resp.status ≡ "degraded")
      × (resp.summary.total ≡ 1)
      × (resp.summary.healthy ≡ 0)
      × (resp.summary.unhealthy ≡ 1))
    ⊎ ((ps ≢ [])
        × (resp.summary.total ≡ length ps)
        × (resp.summary.healthy ≡ passes ps)
        × (resp.summary.unhealthy ≡ failures ps)
        × (((failures ps ≡ 0) × (code ≡ 200) × (resp.status ≡ "healthy"))
            ⊎ ((0 < failures ps) × (code ≡ 503) × (resp.status ≡ "degraded"))))

answer : String → String → Report → ℕ × HealthStatusResponse
answer version now r = (
  if r.overall == "degraded" then 503 else 200,
  record {
    status = r.overall;
    version = version;
    timestamp = now;
    services = r.services;
    summary = r.summary;
  },
)

completed_of-cons :
    (ss : List (String × ServiceStatus)) (r : Report) → ss ≢ [] → completed_of ss r ≡ r
completed_of-cons [] r h = absurd (h refl)
completed_of-cons (s ∷ ss) r h = refl

overall_cases :
    (ps : List (Option GoError)) (r : Report)
    → IsTally ps new_report r
    → ((failures ps ≡ 0) × (r.overall ≡ "healthy")) ⊎ ((0 < failures ps) × (r.overall ≡ "degraded"))
overall_cases ps r t = elim (Bool-cases (eqb (failures ps) 0)) [
  | inl e ↦ inl ((eqb_iff (failures ps) 0).0 e, t.overall ∙ rw e refl)
  | inr e ↦ inr (ground (arith, eqb_iff (failures ps) 0), t.overall ∙ rw e refl)
]

counted_answer :
    (version now : String) (ps : List (Option GoError)) (r : Report)
    → IsTally ps new_report r
    → ps ≢ []
    → IsSummary ps (answer version now r)
unfolding answer
counted_answer version now ps r t h = elim (overall_cases ps r t) [
  | inl (f, o) ↦ inr (
    h,
    t.total ∙ omega arith,
    t.healthy ∙ omega arith,
    t.unhealthy ∙ omega arith,
    inl (f, rw o refl, o),
  )
  | inr (f, o) ↦ inr (
    h,
    t.total ∙ omega arith,
    t.healthy ∙ omega arith,
    t.unhealthy ∙ omega arith,
    inr (f, rw o refl, o),
  )
]

completed-IsSummary :
    (version now : String) (ps : List (Option GoError)) (r : Report)
    → IsTally ps new_report r
    → IsSummary ps (answer version now (completed r))
unfolding completed answer
completed-IsSummary version now [] r t = rw (t.kept refl) (inl (refl, refl, refl, refl, refl, refl))
completed-IsSummary version now (p ∷ ps) r t =
    rw (completed_of-cons r.services r (t.listed (λ x. cc)))
      (counted_answer version now (p ∷ ps) r t (λ x. cc))

-- With `ps` the results of the probes of all backends that are asked, chat backends and then TTS
-- entries with a backend: without any, the answer is 503, degraded, with one unhealthy service;
-- otherwise the summary counts them, those that passed and those that failed, and the answer is
-- 200, healthy, if none failed, and 503, degraded, if one did.
pub health_status-IsSummary :
    {B : Type 0} (version now : String) (bs : List ChatBackend)
    (infos : Option (List (BackendInfo B TtsBackend)))
    → IsSummary (all_probes bs infos) (health_status version now bs infos)
unfolding health_status answer
health_status-IsSummary version now bs infos =
    completed-IsSummary version now (all_probes bs infos) _ (checked-IsTally bs infos)
