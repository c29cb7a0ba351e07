-- ===== src/Schemas.antt =====
-- app/schemas/openai.py: the requests and responses of the OpenAI-compatible endpoints. The
-- parameters that only an upstream reads (n, stop, the penalties, user) go on inside `rest`.

use cortex_cloud_api.Prelude.{ℕ, String, Bool, Option, List}
use cortex_cloud_api.Prelude.Int.{ℤ}
use cortex_cloud_api.Prelude.Floats.{Float}
use cortex_cloud_api.Json.{Json, Fields}

pub data Role : Type 0 where
  system user assistant tool : Role

-- `Optional[Union[str, List[Dict[str, Any]]]]`
pub data Content : Type 0 where
  absent : Content
  text : String → Content
  parts : List Json → Content

pub record ChatCompletionMessage : Type 0 where
  pub role : Role
  pub content : Content
  pub name : Option String
  pub tool_call_id : Option String
  pub tool_calls : Option (List Json)

-- `ResponseFormat.type`
pub data ResponseFormat : Type 0 where
  text_format json_object : ResponseFormat

-- `Union[str, Dict[str, Any]]`
pub data ToolChoice : Type 0 where
  named : String → ToolChoice
  chosen : Fields → ToolChoice

pub record ChatCompletionRequest : Type 0 where
  pub model : String
  pub messages : List ChatCompletionMessage
  pub temperature : Option Float
  pub top_p : Option Float
  pub stream : Bool
  pub max_tokens : Option ℕ
  pub response_format : Option ResponseFormat
  pub tools : Option (List Json)
  pub tool_choice : Option ToolChoice
  pub rest : List (String × Json)

pub record UsageInfo : Type 0 where
  pub prompt_tokens : ℤ
  pub completion_tokens : ℤ
  pub total_tokens : ℤ

pub record ChoiceMessage : Type 0 where
  pub role : String
  pub content : Option String
  pub tool_calls : Option (List Json)

pub data FinishReason : Type 0 where
  stop length tool_calls content_filter : FinishReason

pub record ChatCompletionChoice : Type 0 where
  pub index : ℕ
  pub message : ChoiceMessage
  pub finish_reason : Option FinishReason

pub record ChatCompletionResponse : Type 0 where
  pub id : String
  pub created : ℕ
  pub model : String
  pub choices : List ChatCompletionChoice
  pub usage : UsageInfo

pub record ChoiceDelta : Type 0 where
  pub role : Option String
  pub content : Option String
  pub tool_calls : Option (List Json)

pub record ChatCompletionStreamChoice : Type 0 where
  pub index : ℕ
  pub delta : ChoiceDelta
  pub finish_reason : Option FinishReason

pub record ChatCompletionStreamResponse : Type 0 where
  pub id : String
  pub created : ℕ
  pub model : String
  pub choices : List ChatCompletionStreamChoice
  pub usage : Option UsageInfo

-- `Union[str, List[str], List[int], List[List[int]]]`
pub data EmbeddingsInput : Type 0 where
  one_text : String → EmbeddingsInput
  texts : List String → EmbeddingsInput
  tokens : List ℤ → EmbeddingsInput
  token_lists : List (List ℤ) → EmbeddingsInput

pub record EmbeddingsRequest : Type 0 where
  pub model : String
  pub input : EmbeddingsInput

-- A component of an embedding is a float, which the gateway hands on as it is.
pub record EmbeddingObject : Type 0 where
  pub index : ℕ
  pub embedding : List Json

pub record EmbeddingsResponse : Type 0 where
  pub items : List EmbeddingObject
  pub model : String
  pub usage : UsageInfo

pub record ModelObject : Type 0 where
  pub id : String
  pub created : ℕ
  pub owned_by : String
