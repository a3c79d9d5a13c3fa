-- ===== src/Adapter.antt =====
-- internal/backend: what the adapters of the model servers share (httpclient.go, and the steps
-- that every method of mlx.go, ollama.go and tts.go repeats). The HTTP client and the JSON codecs
-- are parameters.
mod Types
pub mod Mlx
pub mod Ollama
pub mod Tts
pub mod Interfaces
pub mod Stream
pub mod Status
mod Tests
pub use Types.*
use inferencia.Common.{
  ℕ, String, true, false, Option, none, some, List, [], ◌∷◌, ◌==◌, Result, ok, err, if◌then◌else◌,
  eqb, ℤ, pos, leb_ℤ, join_text, strip_prefix, itoa,
}
use inferencia.ApiError.{GoError}

-- `http.Client`; a timeout that is not positive is none.
pub record HttpClient : Type 0 where
  pub timeout : ℤ

unfoldable pub new_http_client : ℤ → HttpClient
new_http_client timeout =
    if leb_ℤ timeout (pos 0) then record { timeout = pos 0 } else record { timeout = timeout }

pub record HttpRequest : Type 0 where
  pub method : String
  pub url : String
  pub content_type : String
  pub body : String

-- A response: its body, and the error at which reading it ends; the lines that a scanner of the
-- body yields, each with what `scanner.Err()` is then, and what it is at the end.
pub record HttpResponse : Type 0 where
  pub status : ℕ
  pub content_type : String
  pub body : String
  pub body_error : Option GoError
  pub lines : List (String × Option GoError)
  pub lines_error : Option GoError

-- `http.NewRequestWithContext`, its error for a method and a URL, and `Client.Do`.
pub record Network : Type 0 where
  pub refuse : String → String → Option GoError
  pub deliver : HttpClient → HttpRequest → Result GoError HttpResponse

-- `fmt.Errorf("label: %w", err)`
abbrev pub wrap : String → GoError → GoError
wrap label e = record e { text = join_text label (join_text ": " e.text) }

-- An error that wraps none.
abbrev pub plain : String → GoError
plain text = record {
  is_deadline_exceeded = false;
  net_timeout = none;
  is_op_error = false;
  text = text;
}

-- `fmt.Errorf("label: status %d: %s", status, body)`
abbrev pub status_error : String → ℕ → String → GoError
status_error label status body =
    plain (join_text label (join_text ": status " (join_text (itoa status) (join_text ": " body))))

abbrev pub get_request : String → HttpRequest
get_request url = record { method = "GET"; url = url; content_type = ""; body = "" }

abbrev pub post_request : String → String → HttpRequest
post_request url body = record {
  method = "POST";
  url = url;
  content_type = "application/json";
  body = body;
}

abbrev pub on_ok :
    {A B : Type 0} → String → Result GoError A → (A → Result GoError B) → Result GoError B
on_ok label (err e) k = err (wrap label e)
on_ok label (ok a) k = k a

-- A request that cannot be made; otherwise the response or the client's error.
abbrev pub made : {A : Type 0} → String → Option GoError → Result GoError A → Result GoError A
made label none r = r
made label (some e) r = err (wrap label e)

-- The response, if its status is 200.
abbrev pub accepted : String → HttpResponse → Result GoError HttpResponse
accepted label resp =
    if eqb resp.status 200 then ok resp else err (status_error label resp.status resp.body)

-- The steps of a request, with the words of the errors for making it, for its failure and for
-- another status.
abbrev pub exchange :
    Network → String → String → String → HttpClient → HttpRequest → Result GoError HttpResponse
exchange net create label status_label client req =
    made create (net.refuse req.method req.url)
      (on_ok label (net.deliver client req) (accepted status_label))

-- The decoded body.
abbrev pub decoded :
    {A : Type 0}
    → String
    → (HttpResponse → Result GoError A)
    → Result GoError HttpResponse
    → Result GoError A
decoded label decode (err e) = err e
decoded label decode (ok resp) = on_ok label (decode resp) ok

-- The loop over the lines of a stream: every payload goes to `send`, until one is the end mark or `send`
-- fails. The result is the error that is returned.
unfoldable pub relay :
    {S : Type 0}
    → (S → String → Option GoError × S)
    → S
    → List (String × Option GoError)
    → Option GoError
    → Option GoError × S
relay send s [] final = (final, s)
relay send s ((line, now) ∷ lines) final = elim (strip_prefix "data: " line) [
  | none ↦ relay send s lines final
  | some payload ↦
      let (failure, s') = send s payload in
      elim failure [
        | some e ↦ (some e, s')
        | none ↦ elim (payload == "[DONE]") [ true ↦ (now, s') | false ↦ relay send s' lines final ]
      ]
]

unfoldable pub relayed :
    {S : Type 0}
    → (S → String → Option GoError × S)
    → S
    → Result GoError HttpResponse
    → Option GoError × S
unfolding relay
relayed send s (err e) = (some e, s)
relayed send s (ok resp) = relay send s resp.lines resp.lines_error

-- The health probe, whose error does not quote the body.
abbrev pub probed : String → Result GoError HttpResponse → Option GoError
probed label (err e) = some (wrap label e)
probed label (ok resp) =
    if eqb resp.status 200
    then none
    else some (plain (join_text label (join_text ": status " (itoa resp.status))))

abbrev pub probe : Network → String → String → HttpClient → HttpRequest → Option GoError
probe net create label client req = elim (net.refuse req.method req.url) [
  | some e ↦ some (wrap create e)
  | none ↦ probed label (net.deliver client req)
]
