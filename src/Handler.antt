-- ===== src/Handler.antt =====
-- internal/handler: chat.go, embeddings.go and models.go, with the request types of
-- internal/backend/backend.go. JSON decoding and the calls of a backend are parameters; raw JSON
-- is its text. A handler runs on the registry's state; logging and metrics are left out.
mod Types
pub mod Lease
pub mod Stream
mod Tests
pub use Types.*
use Prim.Native.String
use inferencia.Common.{
  ℕ, String, Char, Bool, true, false, ◌||◌, Option, none, some, List, [], ◌∷◌, ◌==◌, if◌then◌else◌,
  eqb, Result, ok, err, length, trim_space,
}
use inferencia.ApiError
use inferencia.ApiError.{
  GoError, invalid_request, invalid_param, backend_unavailable, from_backend_error,
}
use inferencia.Backend
use inferencia.Backend.{Registry, HealthChecker, primary_healthy, release_backend}

-- What reaches the client: an error, a JSON answer, or a stream; `silent` is a response that is
-- not written, and `crashed` the panic of a method call on a nil backend.
pub data Response (A S : Type 0) : Type 0 where
  failed : ApiError.Error → Response A S
  answered : A → Response A S
  streamed : S → Response A S
  silent crashed : Response A S

abbrev pub default_chat_model : String
default_chat_model = "qwen3.6:35b-a3b-coding-bf16"

-- `string(req.Input)` is one of the texts of a missing input.
abbrev pub is_missing : String → Bool
is_missing input = (input == "") || (input == "null") || (input == "\"\"") || (input == "[]")

abbrev pub with_model : ChatRequest → ChatRequest
with_model req =
    if trim_space req.model == "" then record req { model = default_chat_model } else req

module _ {B : Type 0} where
  abbrev pub primary_name : Registry B → String
  primary_name r = r.primary

  -- Both branches of the code return this.
  abbrev pub backend_select_error : Registry B → Backend.Error → ApiError.Error
  backend_select_error r e =
      backend_unavailable (if primary_name r == "" then "default" else primary_name r)

module _ (lower : Char → Char) {B A S : Type 0} (name_of : B → String) (hc : HealthChecker)
    (entries : List (String × B)) where
  abbrev pub written : Option ApiError.Error → Response A S
  written none = silent
  written (some e) = failed e

  -- The answer of a call, or the error it becomes.
  abbrev pub answer : B → Result GoError A → Response A S
  answer b (ok a) = answered a
  answer b (err e) = written (from_backend_error lower (name_of b) (some e))

  -- What is done with the backend that `PrimaryHealthy` returns, and its deferred release.
  abbrev pub lease :
      (B → Response A S) → Result Backend.Error (Option B) × Registry B → Response A S × Registry B
  lease respond (err e, r') = (failed (backend_select_error r' e), r')
  lease respond (ok none, r') = (crashed, r')
  lease respond (ok (some b), r') = (respond b, release_backend r' (name_of b))

  unfoldable pub models : (B → Result GoError A) → Registry B → Response A S × Registry B
  models list_models r = lease (λ b. answer b (list_models b)) (primary_healthy r hc entries)

  unfoldable pub embeddings :
      (B → EmbedRequest → Result GoError A)
      → Result String EmbedRequest
      → Registry B
      → Response A S × Registry B
  embeddings create (err msg) r =
      (failed (invalid_request (String.◌++◌ "Invalid JSON in request body: " msg)), r)
  embeddings create (ok req) r =
      if is_missing req.input
      then (failed (invalid_param "input" "input is required"), r)
      else lease (λ b. answer b (create b req)) (primary_healthy r hc entries)

  -- `handleJSON` and `handleStream`, of a client that can be streamed to.
  abbrev pub chat_response :
      (B → ChatRequest → Result GoError A) → (B → ChatRequest → S) → ChatRequest → B → Response A S
  chat_response chat stream req b =
      if req.stream then streamed (stream b req) else answer b (chat b req)

  unfoldable pub chat_completions :
      (B → ChatRequest → Result GoError A)
      → (B → ChatRequest → S)
      → Result String ChatRequest
      → Registry B
      → Response A S × Registry B
  chat_completions chat stream (err msg) r =
      (failed (invalid_request (String.◌++◌ "Invalid JSON in request body: " msg)), r)
  chat_completions chat stream (ok req) r =
      if eqb (length req.messages) 0
      then (failed (invalid_param "messages" "messages is required and must not be empty"), r)
      else lease (chat_response chat stream (with_model req)) (primary_healthy r hc entries)
