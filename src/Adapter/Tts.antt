-- ===== src/Adapter/Tts.antt =====
-- internal/backend/tts.go. `lower` is Go's table of lower-case letters beyond ASCII.
use inferencia.Common.{
  String, Char, Option, none, some, List, ◌==◌, if◌then◌else◌, Result, ok, err, ℤ, pos, join_text,
  trim_right_of, to_lower, map,
}
use inferencia.Config.{finite, at_most_zero}
use inferencia.ApiError.{GoError}
use inferencia.Adapter.{
  HttpClient, HttpResponse, Network, get_request, post_request, wrap, on_ok, exchange, decoded,
  probe, Model, ModelsResponse, TtsRequest, TtsResponse, Voice,
}

pub record TtsHttp : Type 0 where
  pub name : String
  pub base_url : String
  pub client : HttpClient

unfoldable pub new_tts_http : String → String → ℤ → TtsHttp
new_tts_http name base_url timeout = record {
  name = name;
  base_url = trim_right_of b'/' base_url;
  client = record { timeout = timeout };
}

-- The type of a lower-case format.
abbrev pub mime_of : String → String
mime_of f =
    if f == "mp3"
    then "audio/mpeg"
    else if f == "opus"
    then "audio/opus"
    else if f == "flac"
    then "audio/flac"
    else if f == "wav"
    then "audio/wav"
    else if f == "pcm"
    then "audio/L16"
    else "audio/wav"

unfoldable pub mime_type_for_format : (Char → Char) → String → String
mime_type_for_format lower format = mime_of (to_lower lower format)

-- The copy of the request that is sent, with its defaults.
abbrev pub with_defaults : TtsRequest → TtsRequest
with_defaults req = record req {
  response_format = if req.response_format == "" then "wav" else req.response_format;
  speed = if at_most_zero req.speed then finite (pos 1) 0 else req.speed;
  voice = if req.voice == "" then "default" else req.voice;
}

abbrev pub read_audio : String → HttpResponse → Result GoError TtsResponse
read_audio fallback resp = elim resp.body_error [
  | some e ↦ err (wrap "read tts audio" e)
  | none ↦ ok (record {
    audio = resp.body;
    format = if resp.content_type == "" then fallback else resp.content_type;
    duration_ms = pos 0;
  })
]

abbrev pub on_response :
    {A : Type 0}
    → (HttpResponse → Result GoError A)
    → Result GoError HttpResponse
    → Result GoError A
on_response k (err e) = err e
on_response k (ok resp) = k resp

abbrev pub voice_of : Model → Voice
voice_of m = record { id = m.id; name = m.id; gender = ""; language = "" }

abbrev pub voices_of : Result GoError ModelsResponse → Result GoError (List Voice)
voices_of (err e) = err e
voices_of (ok models) = ok (map voice_of models.models)

module _ (net : Network) (t : TtsHttp) where
  unfoldable pub health : Option GoError
  health =
      probe net "create tts health request" "tts health check" t.client
        (get_request (join_text t.base_url "/health"))

  unfoldable pub voices :
      (HttpResponse → Result GoError ModelsResponse) → Result GoError (List Voice)
  voices decode = voices_of (
      decoded "decode models response" decode (
        exchange net "create voices request" "tts list models" "tts list models" t.client
          (get_request (join_text t.base_url "/v1/models"))))

  unfoldable pub synthesize :
      (Char → Char) → (TtsRequest → Result GoError String) → TtsRequest → Result GoError TtsResponse
  unfolding mime_type_for_format
  synthesize lower encode req = on_ok "marshal tts request" (encode (with_defaults req)) λ body.
      on_response (read_audio (mime_type_for_format lower req.response_format)) (
        exchange net "create tts request" "tts synthesize" "tts synthesize" t.client
          (post_request (join_text t.base_url "/v1/audio/speech") body))
