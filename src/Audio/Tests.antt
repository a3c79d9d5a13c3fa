-- ===== src/Audio/Tests.antt =====
-- A TTS registry of two backends: kokoro, and misotts, which is down.
use inferencia.Common.{
  ◌≡◌, refl, String, Char, Bool, none, some, List, [], ◌∷◌, arith, eq_iff, IsRange, ok, pos, ◌==◌,
  not,
}
use inferencia.Config.{finite}
use inferencia.Router.{BackendInfo, Registry, cap_tts}
use inferencia.Adapter.{TtsRequest}
use inferencia.Adapter.Interfaces.{TtsBackend}
use inferencia.Audio.{prepare, audio}
use inferencia.Audio.Request.{IsSound, prepare-IsSound}
use inferencia.Audio.Service.{IsServed, audio-IsServed}

abbrev same : Char → Char
same c = c

-- Its audio is the voice that it was asked for.
abbrev engine : String → TtsBackend
engine name = record {
  name = name;
  health = none;
  voices = ok [];
  synthesize = λ req. ok (record { audio = req.voice; format = ""; duration_ms = pos 0 });
}

abbrev tts_info : String → BackendInfo (Unit {0}) TtsBackend
tts_info name = record {
  name = name;
  backend = none;
  tts_backend = some (engine name);
  capabilities = cap_tts ∷ [];
  models = record { id = name; provider = ""; kind = cap_tts } ∷ [];
}

abbrev engines : Registry (Unit {0}) TtsBackend
engines = record {
  backends = ("kokoro", tts_info "kokoro") ∷ ("misotts", tts_info "misotts") ∷ [];
  routes = [];
  lb = record { active = ("kokoro", 3) ∷ []; rr = 0 };
}

abbrev visits : List (String × BackendInfo (Unit {0}) TtsBackend)
visits = ("misotts", tts_info "misotts") ∷ ("kokoro", tts_info "kokoro") ∷ []

visits-IsRange : IsRange visits engines.backends
visits-IsRange = record {
  sound = λ k v m. ground (arith, eq_iff "kokoro" k, eq_iff "misotts" k);
  complete = λ k v e. ground (arith, eq_iff "kokoro" k, eq_iff "misotts" k);
  once = (λ h. ground (arith, eq_iff "misotts" "kokoro"), ((λ h. h), tt));
}

-- No model and no voice, and nine times the usual speed.
abbrev request : TtsRequest
request = record {
  model = " ";
  input = "Good morning.";
  voice = "";
  response_format = "mp3";
  speed = finite (pos 9) 0;
}

prepared : prepare "kokoro" request ≡ (record {
  model = "kokoro";
  input = "Good morning.";
  voice = "af_bella";
  response_format = "mp3";
  speed = finite (pos 4) 0;
})
unfolding prepare
prepared = refl

prepare-IsSound_example : IsSound (prepare "kokoro" request)
prepare-IsSound_example = prepare-IsSound "kokoro" request (λ e. cc)

abbrev up : String → Bool
up name = not (name == "misotts")

audio-IsServed_example :
    IsServed same
      (some up)
      visits
      engines
      request
      (audio same (some up) visits (ok request) engines)
audio-IsServed_example = audio-IsServed same (some up) visits engines request visits-IsRange
