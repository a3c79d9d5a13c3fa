-- ===== src/Router/Tests.antt =====
-- A TTS registry of two backends that offer a model each.
use inferencia.Common.{◌≡◌, refl, String, none, some, List, [], ◌∷◌, arith, eq_iff, IsRange}
use inferencia.Router.{BackendInfo, Registry, cap_tts, score_backend}

-- As `main` registers a TTS backend; the backend itself is its address.
abbrev pub tts_info : String → BackendInfo (Unit {0}) String
tts_info name = record {
  name = name;
  backend = none;
  tts_backend = some name;
  capabilities = cap_tts ∷ [];
  models = record { id = name; provider = ""; kind = cap_tts } ∷ [];
}

abbrev pub voices : Registry (Unit {0}) String
voices = record {
  backends = ("kokoro", tts_info "kokoro") ∷ ("misotts", tts_info "misotts") ∷ [];
  routes = [];
  lb = record { active = ("kokoro", 3) ∷ []; rr = 0 };
}

abbrev pub visits : List (String × BackendInfo (Unit {0}) String)
visits = ("misotts", tts_info "misotts") ∷ ("kokoro", tts_info "kokoro") ∷ []

pub visits-IsRange : IsRange visits voices.backends
visits-IsRange = record {
  sound = λ k v m. ground (arith, eq_iff "kokoro" k, eq_iff "misotts" k);
  complete = λ k v e. ground (arith, eq_iff "kokoro" k, eq_iff "misotts" k);
  once = (λ h. ground (arith, eq_iff "misotts" "kokoro"), ((λ h. h), tt));
}

-- A prefix of the model's name is enough.
score_prefix : score_backend (tts_info "kokoro") cap_tts "kok" ≡ 60
unfolding score_backend
score_prefix = refl
