-- ===== src/Adapter/Types.antt =====
-- The response types of internal/backend/backend.go, and its requests and responses of speech. A
-- pointer is an option, raw JSON and the bytes of audio are texts.
use inferencia.Common.{String, Option, List, ℤ}
use inferencia.Config.{Float}
use inferencia.Handler.{Message}

pub record Usage : Type 0 where
  pub prompt_tokens : ℤ
  pub completion_tokens : ℤ
  pub total_tokens : ℤ

pub record Choice : Type 0 where
  pub index : ℤ
  pub message : Option Message
  pub delta : Option Message
  pub finish_reason : Option String

pub record ChatResponse : Type 0 where
  pub id : String
  pub object : String
  pub created : ℤ
  pub model : String
  pub choices : List Choice
  pub usage : Option Usage

pub record Model : Type 0 where
  pub id : String
  pub object : String
  pub created : ℤ
  pub owned_by : String

pub record ModelsResponse : Type 0 where
  pub object : String
  pub models : List Model

pub record Embedding : Type 0 where
  pub object : String
  pub index : ℤ
  pub embedding : List Float

pub record EmbedResponse : Type 0 where
  pub object : String
  pub embeddings : List Embedding
  pub model : String
  pub usage : Option Usage

pub record TtsRequest : Type 0 where
  pub model : String
  pub input : String
  pub voice : String
  pub response_format : String
  pub speed : Float

pub record TtsResponse : Type 0 where
  pub audio : String
  pub format : String
  pub duration_ms : ℤ

pub record Voice : Type 0 where
  pub id : String
  pub name : String
  pub gender : String
  pub language : String
