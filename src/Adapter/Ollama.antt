-- ===== src/Adapter/Ollama.antt =====
-- internal/backend/ollama.go.
use inferencia.Common.{String, true, false, Option, Result, ℤ, pos, join_text, trim_right_of}
use inferencia.ApiError.{GoError}
use inferencia.Handler.{ChatRequest, EmbedRequest}
use inferencia.Adapter.{
  HttpClient, HttpResponse, Network, new_http_client, get_request, post_request, on_ok, exchange,
  decoded, relayed, probe, ChatResponse, ModelsResponse, EmbedResponse,
}

pub record Ollama : Type 0 where
  pub name : String
  pub base_url : String
  pub health_client : HttpClient
  pub inference_client : HttpClient

unfoldable pub new_ollama : String → String → ℤ → ℤ → Ollama
new_ollama name base_url health_timeout inference_timeout = record {
  name = name;
  base_url = trim_right_of b'/' base_url;
  health_client = new_http_client health_timeout;
  inference_client = new_http_client inference_timeout;
}

module _ (net : Network) (o : Ollama) where
  unfoldable pub health : Option GoError
  health =
      probe net "create health request" "ollama health check" o.health_client
        (get_request (join_text o.base_url "/api/tags"))

  unfoldable pub chat_completion :
      (ChatRequest → Result GoError String)
      → (HttpResponse → Result GoError ChatResponse)
      → ChatRequest
      → Result GoError ChatResponse
  chat_completion encode decode req =
      on_ok "marshal chat request" (encode (record req { stream = false })) λ body.
        decoded "decode chat response" decode (
          exchange net "create chat request" "ollama chat completion" "ollama chat completion"
            o.inference_client (post_request (join_text o.base_url "/v1/chat/completions") body))

  -- The client of a stream has no timeout.
  unfoldable pub chat_completion_stream :
      {S : Type 0}
      → (ChatRequest → Result GoError String)
      → (S → String → Option GoError × S)
      → ChatRequest
      → S
      → Option GoError × S
  unfolding relayed
  chat_completion_stream encode send req s = relayed send s (
      on_ok "marshal chat request" (encode (record req { stream = true })) λ body.
        exchange net "create stream request" "ollama stream request" "ollama stream"
          (record { timeout = pos 0 })
          (post_request (join_text o.base_url "/v1/chat/completions") body))

  unfoldable pub list_models :
      (HttpResponse → Result GoError ModelsResponse) → Result GoError ModelsResponse
  list_models decode = decoded "decode models response" decode (
      exchange net "create models request" "ollama list models" "ollama list models" o.health_client
        (get_request (join_text o.base_url "/v1/models")))

  unfoldable pub create_embedding :
      (EmbedRequest → Result GoError String)
      → (HttpResponse → Result GoError EmbedResponse)
      → EmbedRequest
      → Result GoError EmbedResponse
  create_embedding encode decode req = on_ok "marshal embed request" (encode req) λ body.
      decoded "decode embed response" decode (
        exchange net "create embed request" "ollama create embedding" "ollama create embedding"
          o.inference_client (post_request (join_text o.base_url "/v1/embeddings") body))
