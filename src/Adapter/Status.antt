-- ===== src/Adapter/Status.antt =====
-- What the API makes of the status that a model server answers with.
use inferencia.Common.{
  ℕ, ◌^◌, ◌<◌, ◌≡◌, ◌≢◌, refl, ap, ◌⊎◌, inl, String, Char, Bool, false, ◌||◌, Option, none, some,
  List, [], ◌∷◌, In, All-In, arith, pos, eqb, eqb_iff, if◌then◌else◌, Result, ok, err, after,
  join_text, itoa, atoi-until,
}
use inferencia.ApiError.{
  Error, GoError, backend_timeout, backend_overloaded, backend_unavailable, is_client_timeout,
  is_connection_unavailable, is_overload_message, upstream_http_status, from_backend_error,
}
use inferencia.Handler.{ChatRequest}
use inferencia.Adapter.{
  Network, HttpClient, HttpRequest, HttpResponse, ChatResponse, post_request, status_error,
  exchange, decoded,
}
use inferencia.Adapter.Mlx.{Mlx, chat_completion}

-- The labels of the errors that quote a status and a body.
abbrev pub labels : List String
labels =
    "mlx chat completion" ∷ "mlx stream" ∷ "mlx list models" ∷ "mlx create embedding"
    ∷ "ollama chat completion" ∷ "ollama stream" ∷ "ollama list models" ∷ "ollama create embedding"
    ∷ "tts synthesize" ∷ "tts list models" ∷ []

-- The text after the label of an error is its status.
abbrev IsRead : String → Type 0
IsRead label =
    (rest : String) → after "status " (join_text label (join_text ": status " rest)) ≡ some rest

labels-IsRead : (label : String) → In label labels → IsRead label
labels-IsRead label =
    All-In IsRead labels
      (
        (λ rest. refl),
        (
          (λ rest. refl),
          (
            (λ rest. refl),
            (
              (λ rest. refl),
              (
                (λ rest. refl),
                (
                  (λ rest. refl),
                  ((λ rest. refl), ((λ rest. refl), ((λ rest. refl), ((λ rest. refl), tt)))),
                ),
              ),
            ),
          ),
        ),
      )
      label

upstream_http_status-status_error :
    (lower : Char → Char) (label : String) (n : ℕ) (body : String)
    → In label labels
    → n < 2 ^ 63
    → upstream_http_status lower (status_error label n body) ≡ some (pos n)
unfolding upstream_http_status
upstream_http_status-status_error lower label n body m b =
    rw (labels-IsRead label m (join_text (itoa n) (join_text ": " body)), upstream_http_status)
      (atoi-until n (String.◌∷◌ " " body) b)

-- A status of a busy backend.
abbrev pub IsBusyStatus : ℕ → Type 0
IsBusyStatus n = (n ≡ 429) ⊎ ((n ≡ 502) ⊎ (n ≡ 503))

-- The error of the API for an answer of the status `n`, where the message has no words of a
-- timeout or of a lost connection.
abbrev pub IsForStatus : String → ℕ → Bool → Option Error → Type 0
IsForStatus backend n overload e =
    (IsBusyStatus n × (e ≡ some (backend_overloaded backend)))
    ⊎ ((n ≡ 504) × (e ≡ some (backend_timeout backend)))
    ⊎ ((¬ IsBusyStatus n)
        × (n ≢ 504)
        × (e ≡ some (if overload then backend_overloaded backend else backend_unavailable backend)))

by_status :
    (backend : String) (n : ℕ) (overload : Bool)
    → IsForStatus backend n overload (
        some (
          if eqb n 429 || eqb n 502 || eqb n 503
          then backend_overloaded backend
          else if eqb n 504
          then backend_timeout backend
          else if overload
          then backend_overloaded backend
          else backend_unavailable backend))
by_status backend n overload =
    ground (arith, eqb_iff n 429, eqb_iff n 502, eqb_iff n 503, eqb_iff n 504)

module _ (lower : Char → Char) (backend label : String) (n : ℕ) (body : String) where
  abbrev pub error : GoError
  error = status_error label n body

  status_error-IsForStatus :
      In label labels
      → n < 2 ^ 63
      → is_client_timeout lower error ≡ false
      → is_connection_unavailable lower error ≡ false
      → IsForStatus backend n
          (is_overload_message lower error.text)
          (from_backend_error lower backend (some error))
  unfolding from_backend_error
  status_error-IsForStatus m b t u =
      rw (t, u, upstream_http_status-status_error lower label n body m b)
        (by_status backend n (is_overload_message lower error.text))

exchange_status :
    (net : Network) (create label status_label : String) (client : HttpClient) (req : HttpRequest)
    (resp : HttpResponse)
    → net.refuse req.method req.url ≡ none
    → net.deliver client req ≡ ok resp
    → resp.status ≢ 200
    → exchange net create label status_label client req
      ≡ err (status_error status_label resp.status resp.body)
exchange_status net create label status_label client req resp r d h =
    let other : eqb resp.status 200 ≡ false = ground (arith, eqb_iff resp.status 200) in
    rw (r, d, other) refl

-- A chat completion that the MLX server answers with a status other than 200 fails, and the handler
-- answers 503 backend_overloaded for 429, 502 and 503, 504 backend_timeout for 504, and for other
-- statuses 503 backend_overloaded or backend_unavailable, as the message tells of overload or not;
-- if the message, which quotes the body, has no words of a timeout or of a lost connection.
pub mlx_chat-IsForStatus :
    (lower : Char → Char) (net : Network) (m : Mlx) (encode : ChatRequest → Result GoError String)
    (decode : HttpResponse → Result GoError ChatResponse) (req : ChatRequest) (body : String)
    (resp : HttpResponse)
    → encode (record req { stream = false }) ≡ ok body
    → net.refuse "POST" (join_text m.base_url "/v1/chat/completions") ≡ none
    → net.deliver m.inference_client
        (post_request (join_text m.base_url "/v1/chat/completions") body)
      ≡ ok resp
    → resp.status ≢ 200
    → resp.status < 2 ^ 63
    → is_client_timeout lower (status_error "mlx chat completion" resp.status resp.body) ≡ false
    → is_connection_unavailable lower (status_error "mlx chat completion" resp.status resp.body)
      ≡ false
    → (e : GoError) × (chat_completion net m encode decode req ≡ err e)
      × IsForStatus m.name resp.status
          (is_overload_message lower e.text)
          (from_backend_error lower m.name (some e))
unfolding chat_completion
mlx_chat-IsForStatus lower net m encode decode req body resp en r d h b t u = (
  status_error "mlx chat completion" resp.status resp.body,
  rw en (
      ap (decoded "decode chat response" decode) (
        exchange_status net "create chat request" "mlx chat completion" "mlx chat completion"
          m.inference_client (post_request (join_text m.base_url "/v1/chat/completions") body) resp
          r d h)),
  status_error-IsForStatus lower m.name "mlx chat completion" resp.status resp.body (inl refl) b t
      u,
)
