-- ===== src/Handler/Types.antt =====
-- The request types of internal/backend/backend.go. A pointer is an option, and raw JSON its text.
use inferencia.Common.{String, Bool, Option, List, ℤ}
use inferencia.Config.{Float}

pub record ToolCallFunction : Type 0 where
  pub name : String
  pub arguments : String

pub record ToolCall : Type 0 where
  pub id : String
  pub type : String
  pub function : ToolCallFunction

pub record ToolFunction : Type 0 where
  pub name : String
  pub description : String
  pub parameters : String

pub record Tool : Type 0 where
  pub type : String
  pub function : ToolFunction

pub record Message : Type 0 where
  pub role : String
  pub content : String
  pub name : String
  pub tool_calls : List ToolCall
  pub tool_call_id : String

pub record ChatRequest : Type 0 where
  pub model : String
  pub messages : List Message
  pub temperature : Option Float
  pub top_p : Option Float
  pub n : Option ℤ
  pub max_tokens : Option ℤ
  pub max_completion_tokens : Option ℤ
  pub stop : String
  pub stream : Bool
  pub presence_penalty : Option Float
  pub frequency_penalty : Option Float
  pub logprobs : Option Bool
  pub top_logprobs : Option ℤ
  pub seed : Option ℤ
  pub user : String
  pub tools : List Tool
  pub tool_choice : String
  pub response_format : String

pub record EmbedRequest : Type 0 where
  pub model : String
  pub input : String
  pub encoding_format : String
