-- ===== src/Adapter/Mlx.antt =====
-- internal/backend/mlx.go.
use inferencia.Common.{String, true, false, Option, Result, ℤ, pos, join_text, trim_right_of}
use inferencia.ApiError.{GoError}
use inferencia.Handler.{ChatRequest, EmbedRequest}
use inferencia.Adapter.{
  HttpClient, HttpResponse, Network, new_http_client, get_request, post_request, on_ok, exchange,
  decoded, relayed, probe, ChatResponse, ModelsResponse, EmbedResponse,
}

pub record Mlx : Type 0 where
  pub name : String
  pub base_url : String
  pub health_client : HttpClient
  pub inference_client : HttpClient

unfoldable pub new_mlx : String → String → ℤ → ℤ → Mlx
new_mlx name base_url health_timeout inference_timeout = record {
  name = name;
  base_url = trim_right_of b'/' base_url;
  health_client = new_http_client health_timeout;
  inference_client = new_http_client inference_timeout;
}

module _ (net : Network) (m : Mlx) where
  unfoldable pub health : Option GoError
  health =
      probe net "create health request" "mlx health check" m.health_client
        (get_request (join_text m.base_url "/v1/models"))

  unfoldable pub chat_completion :
      (ChatRequest → Result GoError String)
      → (HttpResponse → Result GoError ChatResponse)
      → ChatRequest
      → Result GoError ChatResponse
  chat_completion encode decode req =
      on_ok "marshal chat request" (encode (record req { stream = false })) λ body.
        decoded "decode chat response" decode (
          exchange net "create chat request" "mlx chat completion" "mlx chat completion"
            m.inference_client (post_request (join_text m.base_url "/v1/chat/completions") body))

  -- The client of a stream has no timeout.
  unfoldable pub chat_completion_stream :
      {S : Type 0}
      → (ChatRequest → Result GoError String)
      → (S → String → Option GoError × S)
      → ChatRequest
      → S
      → Option GoError × S
  unfolding relayed
  chat_completion_stream encode send req s = relayed send s (
      on_ok "marshal chat request" (encode (record req { stream = true })) λ body.
        exchange net "create stream request" "mlx stream request" "mlx stream"
          (record { timeout = pos 0 })
          (post_request (join_text m.base_url "/v1/chat/completions") body))

  unfoldable pub list_models :
      (HttpResponse → Result GoError ModelsResponse) → Result GoError ModelsResponse
  list_models decode = decoded "decode models response" decode (
      exchange net "create models request" "mlx list models" "mlx list models" m.health_client
        (get_request (join_text m.base_url "/v1/models")))

  unfoldable pub create_embedding :
      (EmbedRequest → Result GoError String)
      → (HttpResponse → Result GoError EmbedResponse)
      → EmbedRequest
      → Result GoError EmbedResponse
  create_embedding encode decode req = on_ok "marshal embed request" (encode req) λ body.
      decoded "decode embed response" decode (
        exchange net "create embed request" "mlx create embedding" "mlx create embedding"
          m.inference_client (post_request (join_text m.base_url "/v1/embeddings") body))
