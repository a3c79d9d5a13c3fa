-- ===== src/Health.antt =====
-- internal/handler: health.go and health_status.go. The clock and the version are parameters;
-- `All` of each registry is the list of its backends in the order of `range`.
pub mod Tally
pub mod Summary
pub mod Readiness
mod Tests
use inferencia.Common.{
  ℕ, ◌+◌, String, Bool, true, false, Option, none, some, List, [], ◌∷◌, ◌==◌, if◌then◌else◌, put,
  read, map, Result, ok, err,
}
use inferencia.ApiError.{GoError}
use inferencia.Router.{BackendInfo}
use inferencia.Adapter.{ModelsResponse, Model, Voice}
use inferencia.Adapter.Interfaces.{ChatBackend, TtsBackend}

pub record ModelBrief : Type 0 where
  pub id : String
  pub object : String
  pub owned_by : String

pub record ServiceStatus : Type 0 where
  pub status : String
  pub error : String
  pub models : List ModelBrief

pub record HealthSummary : Type 0 where
  pub total : ℕ
  pub healthy : ℕ
  pub unhealthy : ℕ
  pub by_type : List (String × ℕ)

pub record HealthStatusResponse : Type 0 where
  pub status : String
  pub version : String
  pub timestamp : String
  pub services : List (String × ServiceStatus)
  pub summary : HealthSummary

-- The variables of the handler while it loops.
pub record Report : Type 0 where
  pub services : List (String × ServiceStatus)
  pub overall : String
  pub summary : HealthSummary

abbrev pub new_report : Report
new_report = record {
  services = [];
  overall = "healthy";
  summary = record { total = 0; healthy = 0; unhealthy = 0; by_type = [] };
}

abbrev pub brief_of_model : Model → ModelBrief
brief_of_model m = record { id = m.id; object = m.object; owned_by = m.owned_by }

abbrev pub brief_of_voice : Voice → ModelBrief
brief_of_voice v = record { id = v.id; object = "voice"; owned_by = "" }

abbrev pub model_briefs : Result GoError ModelsResponse → List ModelBrief
model_briefs (err e) = []
model_briefs (ok models) = map brief_of_model models.models

abbrev pub voice_briefs : Result GoError (List Voice) → List ModelBrief
voice_briefs (err e) = []
voice_briefs (ok voices) = map brief_of_voice voices

-- The status of a service from its probe, with its inventory if it is healthy.
abbrev pub service : Option GoError → List ModelBrief → ServiceStatus
service (some e) briefs = record { status = "unhealthy"; error = e.text; models = [] }
service none briefs = record { status = "healthy"; error = ""; models = briefs }

-- What both loops do with a status, and that they set `overall` if the probe failed.
pub counted : String → String → Option GoError → ServiceStatus → Report → Report
counted kind name failure s r = record {
  services = put name s r.services;
  overall = elim failure [ some e ↦ "degraded" | none ↦ r.overall ];
  summary = record {
    total = r.summary.total + 1;
    healthy = if s.status == "healthy" then r.summary.healthy + 1 else r.summary.healthy;
    unhealthy = if s.status == "healthy" then r.summary.unhealthy else r.summary.unhealthy + 1;
    by_type = put kind (read 0 kind r.summary.by_type + 1) r.summary.by_type;
  };
}

pub check_chat : List ChatBackend → Report → Report
unfolding counted
check_chat [] r = r
check_chat (b ∷ bs) r =
    check_chat bs (counted "chat" b.name b.health (service b.health (model_briefs b.list_models)) r)

-- One round of the second loop; an entry without a TTS backend is skipped.
abbrev pub one_tts : String → Option TtsBackend → Report → Report
one_tts name none r = r
one_tts name (some t) r = counted "tts" name t.health (service t.health (voice_briefs t.voices)) r

pub check_tts : {B : Type 0} → List (BackendInfo B TtsBackend) → Report → Report
unfolding counted
check_tts [] r = r
check_tts (info ∷ infos) r = check_tts infos (one_tts info.name info.tts_backend r)

-- What is reported without any service.
abbrev pub completed_of : List (String × ServiceStatus) → Report → Report
completed_of [] r = record {
  services =
      ("_none", record { status = "unhealthy"; error = "no backends registered"; models = [] })
      ∷ [];
  overall = "degraded";
  summary = record r.summary { total = 1; unhealthy = 1 };
}
completed_of (s ∷ ss) r = r

pub completed : Report → Report
completed r = completed_of r.services r

abbrev pub tts_or_none : {B : Type 0} → Option (List (BackendInfo B TtsBackend)) → Report → Report
tts_or_none none r = r
tts_or_none (some infos) r = check_tts infos r

-- The status code and the response; `none` is a nil TTS registry.
unfoldable pub health_status :
    {B : Type 0}
    → String
    → String
    → List ChatBackend
    → Option (List (BackendInfo B TtsBackend))
    → ℕ × HealthStatusResponse
unfolding check_chat check_tts completed
health_status version now bs infos =
    let r = completed (tts_or_none infos (check_chat bs new_report)) in
    (
      if r.overall == "degraded" then 503 else 200,
      record {
        status = r.overall;
        version = version;
        timestamp = now;
        services = r.services;
        summary = r.summary;
      },
    )

-- A JSON object of texts.
abbrev pub Fields : Type 0
Fields = List (String × String)

abbrev pub health : String → Fields
health version = ("status", "ok") ∷ ("version", version) ∷ []

-- The gauge of every backend that was probed, and the answer.
unfoldable pub ready :
    String → List ChatBackend → List (String × ℕ) → (ℕ × Fields) × List (String × ℕ)
ready version [] gauge = ((200, ("status", "ready") ∷ ("version", version) ∷ []), gauge)
ready version (b ∷ bs) gauge = elim b.health [
  | some e ↦ (
    (
      503,
      ("status", "unavailable")
          ∷ ("backend", b.name)
          ∷ ("error", e.text)
          ∷ ("version", version)
          ∷ [],
    ),
    put b.name 0 gauge,
  )
  | none ↦ ready version bs (put b.name 1 gauge)
]

abbrev pub version_info : String → String → Fields
version_info version commit =
    ("version", version) ∷ (if commit == "" then [] else ("commit", commit) ∷ [])
