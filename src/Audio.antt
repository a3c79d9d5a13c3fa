-- ===== src/Audio.antt =====
-- internal/handler/audio.go, on the router's registry. JSON decoding is a parameter; logging and
-- metrics are left out. `lower` is Go's table of lower-case letters beyond ASCII.
pub mod Request
pub mod Service
mod Tests
use Prim.Native.String
use Prim.Native.String.{len}
use inferencia.Common.{
  ℕ, suc, ◌*◌, String, Char, Bool, true, false, Option, none, some, List, ◌==◌, if◌then◌else◌, ltb,
  Result, ok, err, pos, negsuc, trim_space, to_lower, itoa,
}
use inferencia.Config.{Float, finite, inf, neg_inf, nan, at_most_zero}
use inferencia.ApiError
use inferencia.ApiError.{
  GoError, invalid_request, invalid_param, backend_unavailable, from_backend_error,
}
use inferencia.Backend.{HealthChecker}
use inferencia.Router
use inferencia.Router.{Registry, BackendInfo, cap_tts, select_backend, release_backend}
use inferencia.Handler.{Response, failed, answered, silent}
use inferencia.Adapter.{TtsRequest, TtsResponse}
use inferencia.Adapter.Interfaces.{TtsBackend}

abbrev pub default_tts_model : String
default_tts_model = "kokoro"

abbrev pub max_tts_input_length : ℕ
max_tts_input_length = 4096

-- `speed < 0.25` and `speed > 4.0`.
abbrev pub below_quarter : Float → Bool
below_quarter (finite (pos n) d) = ltb (4 * n) (suc d)
below_quarter (finite (negsuc n) d) = true
below_quarter inf = false
below_quarter neg_inf = true
below_quarter nan = false

abbrev pub above_four : Float → Bool
above_four (finite (pos n) d) = ltb (4 * suc d) n
above_four (finite (negsuc n) d) = false
above_four inf = true
above_four neg_inf = false
above_four nan = false

-- A speed that is not positive is 1, and then it is clamped.
abbrev pub clamp : Float → Float
clamp f = if below_quarter f then finite (pos 1) 3 else if above_four f then finite (pos 4) 0 else f

abbrev pub speed_of : Float → Float
speed_of f = clamp (if at_most_zero f then finite (pos 1) 0 else f)

abbrev pub model_of : String → String
model_of model = if trim_space model == "" then default_tts_model else model

-- The voice if none is asked for.
abbrev pub default_voice : String → String
default_voice backend =
    if backend == "kokoro"
    then "af_bella"
    else if backend == "chatterbox"
    then "chatterbox-default"
    else "default"

abbrev pub voice_for : String → String → String
voice_for backend voice = if trim_space voice == "" then default_voice backend else voice

-- The request that the selected backend gets.
unfoldable pub prepare : String → TtsRequest → TtsRequest
prepare backend req = record req {
  model = model_of req.model;
  voice = voice_for backend req.voice;
  speed = speed_of req.speed;
}

abbrev pub mime_of : String → String
mime_of f =
    if f == "mp3"
    then "audio/mpeg"
    else if f == "opus"
    then "audio/opus"
    else if f == "flac"
    then "audio/flac"
    else if f == "wav"
    then "audio/wav"
    else if f == "pcm"
    then "audio/L16"
    else "audio/wav"

unfoldable pub mime_type_from_format : (Char → Char) → String → String
mime_type_from_format lower format = mime_of (to_lower lower format)

-- What is written: the two headers and the audio.
pub record Speech : Type 0 where
  pub content_type : String
  pub content_length : String
  pub audio : String

-- What is wrong with the request; `none` if it passes.
unfoldable pub check_input : TtsRequest → Option ApiError.Error
check_input req =
    if trim_space req.input == ""
    then some (invalid_param "input" "input is required and must not be empty")
    else if ltb max_tts_input_length (len req.input)
    then some (invalid_param "input" "input must be at most 4096 characters")
    else none

module _ (lower : Char → Char) where
  abbrev pub spoken : String → Result GoError TtsResponse → String → Response Speech (Unit {0})
  spoken format (ok resp) name = answered (record {
    content_type = if resp.format == "" then mime_type_from_format lower format else resp.format;
    content_length = itoa (len resp.audio);
    audio = resp.audio;
  })
  spoken format (err e) name = elim (from_backend_error lower name (some e)) [
    | none ↦ silent
    | some api_error ↦ failed api_error
  ]

  -- What is done with the selected backend.
  abbrev pub speak : String → Option TtsBackend → TtsRequest → Response Speech (Unit {0})
  speak name none req = failed (backend_unavailable name)
  speak name (some t) req = spoken req.response_format (t.synthesize (prepare name req)) name

  module _ {B : Type 0} (hc : HealthChecker)
      (entries : List (String × BackendInfo B TtsBackend)) where
    -- With the deferred release of the backend that was selected.
    abbrev pub selected :
        TtsRequest
        → Result Router.Error (BackendInfo B TtsBackend) × Registry B TtsBackend
        → Response Speech (Unit {0}) × Registry B TtsBackend
    selected req (err e, r) = (failed (backend_unavailable (model_of req.model)), r)
    selected req (ok info, r) = (speak info.name info.tts_backend req, release_backend r info.name)

    abbrev pub checked :
        TtsRequest
        → Option ApiError.Error
        → Registry B TtsBackend
        → Response Speech (Unit {0}) × Registry B TtsBackend
    checked req (some e) r = (failed e, r)
    checked req none r = selected req (select_backend r cap_tts (model_of req.model) hc entries)

    unfoldable pub audio :
        Result String TtsRequest
        → Registry B TtsBackend
        → Response Speech (Unit {0}) × Registry B TtsBackend
    unfolding check_input
    audio (err msg) r =
        (failed (invalid_request (String.◌++◌ "Invalid JSON in request body: " msg)), r)
    audio (ok req) r = checked req (check_input req) r
