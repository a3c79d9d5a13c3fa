-- ===== src/Adapter/Interfaces.antt =====
-- internal/backend/backend.go: the interfaces `Backend` and `TTSBackend`, and the adapters as
-- implementations of them. The codecs are parameters.
use inferencia.Common.{String, Char, Option, List, Result}
use inferencia.ApiError.{GoError}
use inferencia.Handler.{ChatRequest, EmbedRequest}
use inferencia.Handler.Stream.{Connection}
use inferencia.Adapter.{
  Network, HttpResponse, ChatResponse, ModelsResponse, EmbedResponse, TtsRequest, TtsResponse,
  Voice,
}
use inferencia.Adapter.Mlx
use inferencia.Adapter.Mlx.{Mlx}
use inferencia.Adapter.Ollama
use inferencia.Adapter.Ollama.{Ollama}
use inferencia.Adapter.Tts
use inferencia.Adapter.Tts.{TtsHttp}

-- `StreamFunc`, with the connection that it writes to.
abbrev pub StreamFunc : Type 0
StreamFunc = Connection → String → Option GoError × Connection

pub record ChatBackend : Type 0 where
  pub name : String
  pub health : Option GoError
  pub chat_completion : ChatRequest → Result GoError ChatResponse
  pub chat_completion_stream : StreamFunc → ChatRequest → Connection → Option GoError × Connection
  pub list_models : Result GoError ModelsResponse
  pub create_embedding : EmbedRequest → Result GoError EmbedResponse

pub record TtsBackend : Type 0 where
  pub name : String
  pub health : Option GoError
  pub synthesize : TtsRequest → Result GoError TtsResponse
  pub voices : Result GoError (List Voice)

-- `json.Marshal` and `json.Decoder.Decode` at the types that are used.
pub record Codecs : Type 0 where
  pub encode_chat : ChatRequest → Result GoError String
  pub encode_embed : EmbedRequest → Result GoError String
  pub encode_tts : TtsRequest → Result GoError String
  pub decode_chat : HttpResponse → Result GoError ChatResponse
  pub decode_models : HttpResponse → Result GoError ModelsResponse
  pub decode_embed : HttpResponse → Result GoError EmbedResponse

module _ (net : Network) (codecs : Codecs) where
  unfoldable pub mlx_backend : Mlx → ChatBackend
  mlx_backend m = record {
    name = m.name;
    health = Mlx.health net m;
    chat_completion = Mlx.chat_completion net m codecs.encode_chat codecs.decode_chat;
    chat_completion_stream = Mlx.chat_completion_stream net m codecs.encode_chat;
    list_models = Mlx.list_models net m codecs.decode_models;
    create_embedding = Mlx.create_embedding net m codecs.encode_embed codecs.decode_embed;
  }

  unfoldable pub ollama_backend : Ollama → ChatBackend
  ollama_backend o = record {
    name = o.name;
    health = Ollama.health net o;
    chat_completion = Ollama.chat_completion net o codecs.encode_chat codecs.decode_chat;
    chat_completion_stream = Ollama.chat_completion_stream net o codecs.encode_chat;
    list_models = Ollama.list_models net o codecs.decode_models;
    create_embedding = Ollama.create_embedding net o codecs.encode_embed codecs.decode_embed;
  }

  unfoldable pub tts_backend : (Char → Char) → TtsHttp → TtsBackend
  tts_backend lower t = record {
    name = t.name;
    health = Tts.health net t;
    synthesize = Tts.synthesize net t lower codecs.encode_tts;
    voices = Tts.voices net t codecs.decode_models;
  }
