-- ===== src/Adapter/Tests.antt =====
-- A model server that is busy, and a stream.
use inferencia.Common.{
  ◌≡◌, refl, String, Char, List, [], ◌∷◌, none, some, Option, Result, ok, err, false, true, arith,
  pos, scan_lines, itoa,
}
use inferencia.ApiError.{
  GoError, from_backend_error, is_client_timeout, is_connection_unavailable, is_overload_message,
}
use inferencia.Handler.{ChatRequest}
use inferencia.Handler.Stream.{fresh, send}
use inferencia.Adapter.{Network, HttpResponse, ChatResponse, plain, relay, status_error}
use inferencia.Adapter.Mlx.{Mlx, new_mlx, chat_completion}
use inferencia.Adapter.Status.{IsForStatus, mlx_chat-IsForStatus}
use inferencia.Adapter.Stream.{quiet, never, relay-gateway}

abbrev same : Char → Char
same c = c

abbrev busy : HttpResponse
busy = record {
  status = 429;
  content_type = "text/plain";
  body = "slow down";
  body_error = none;
  lines = [];
  lines_error = none;
}

abbrev net : Network
net = record { refuse = λ method url. none; deliver = λ client req. ok busy }

abbrev server : Mlx
server = record {
  name = "mlx";
  base_url = "http://localhost:8081";
  health_client = record { timeout = pos 5 };
  inference_client = record { timeout = pos 0 };
}

base_url_trimmed :
    (new_mlx "mlx" "http://localhost:8081//" (pos 5) (pos 0)).base_url ≡ "http://localhost:8081"
unfolding new_mlx
base_url_trimmed = refl

abbrev encode : ChatRequest → Result GoError String
encode req = ok "{}"

abbrev decode : HttpResponse → Result GoError ChatResponse
decode resp = err (plain "unexpected end of JSON input")

abbrev ask : ChatRequest
ask = record {
  model = "qwen";
  messages = [];
  temperature = none;
  top_p = none;
  n = none;
  max_tokens = none;
  max_completion_tokens = none;
  stop = "";
  stream = true;
  presence_penalty = none;
  frequency_penalty = none;
  logprobs = none;
  top_logprobs = none;
  seed = none;
  user = "";
  tools = [];
  tool_choice = "";
  response_format = "";
}

no_timeout_words :
    is_client_timeout same (status_error "mlx chat completion" 429 "slow down") ≡ false
unfolding is_client_timeout itoa
no_timeout_words = refl

no_connection_words :
    is_connection_unavailable same (status_error "mlx chat completion" 429 "slow down") ≡ false
unfolding is_connection_unavailable itoa
no_connection_words = refl

mlx_chat-IsForStatus_example :
    (e : GoError) × (chat_completion net server encode decode ask ≡ err e)
    × IsForStatus "mlx" 429
        (is_overload_message same e.text)
        (from_backend_error same "mlx" (some e))
mlx_chat-IsForStatus_example =
    mlx_chat-IsForStatus same net server encode decode ask "{}" busy refl refl refl (omega arith)
      (omega arith) no_timeout_words no_connection_words

abbrev lines : List String
lines = ": ping" ∷ "data: {\"a\":1}" ∷ "" ∷ "data: [DONE]" ∷ "data: late" ∷ []

-- The payloads, in order.
abbrev gather : List String → String → Option GoError × List String
gather got payload = (none, payload ∷ got)

gathered : relay gather [] (quiet lines) none ≡ (none, "[DONE]" ∷ "{\"a\":1}" ∷ [])
unfolding relay
gathered = refl

relay-gateway_example :
    relay gather []
      (quiet (scan_lines (relay (send never never) fresh (quiet lines) none).1.text))
      none
    ≡ relay gather [] (quiet lines) none
relay-gateway_example = relay-gateway gather [] lines (ground arith)
