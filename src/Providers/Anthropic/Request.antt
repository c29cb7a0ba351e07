-- ===== src/Providers/Anthropic/Request.antt =====
-- app/providers/anthropic.py: `_translate_request`.
use cortex_cloud_api.Prelude.{
  ℕ, zero, suc, String, Option, none, some, List, [], ◌∷◌, ◌++◌, if◌then◌else◌,
}
use cortex_cloud_api.Effects.{Result, ok}
use cortex_cloud_api.Effects.Results.{◌>>=◌, map_result, traverse}
use cortex_cloud_api.Json.{Json, null, str, object_of}
use cortex_cloud_api.Json.Access.{get}
use cortex_cloud_api.Providers.Images.{has_content, content_value, str_content}
use cortex_cloud_api.Prelude.Floats.{Float, halved, at_least_zero, at_most_one}
use cortex_cloud_api.Prelude.Text.{concat, is_empty}
use cortex_cloud_api.Providers.{Python, function_of}
use cortex_cloud_api.Providers.Anthropic.Content.{text_block, convert_content_to_anthropic}
use cortex_cloud_api.Providers.Anthropic.Tools.{tools_and_choice}
use cortex_cloud_api.Schemas.{
  Role, system, user, assistant, tool, Content, parts, ChatCompletionMessage, ChatCompletionRequest,
}

-- `{"role": ..., "content": ...}`
pub data AnthropicMessage : Type 0 where
  from_user : Content → AnthropicMessage
  from_assistant : List Json → AnthropicMessage

pub record AnthropicData : Type 0 where
  pub model : String
  pub max_tokens : ℕ
  pub temperature : Option Float
  pub top_p : Option Float
  pub system_prompt : Option String
  pub messages : List AnthropicMessage
  pub tools : Option (List Json)
  pub tool_choice : Option Json

abbrev pub tool_use : Python → Json → Result Json
tool_use python call = function_of python call >>= λ (name, input). get call "id" >>= λ id.
    ok (object_of (("type", str "tool_use") ∷ ("id", id) ∷ ("name", name) ∷ ("input", input) ∷ []))

abbrev pub calls_of : Option (List Json) → List Json
calls_of none = []
calls_of (some calls) = calls

-- The blocks of a message of the assistant: its text, then its tool calls.
unfoldable pub content_blocks : Python → ChatCompletionMessage → Result (List Json)
content_blocks python msg =
    map_result
      (λ uses.
        if has_content msg.content then text_block (content_value msg.content) ∷ uses else uses)
      (traverse (tool_use python) (calls_of msg.tool_calls))

abbrev optional_str : Option String → Json
optional_str none = null
optional_str (some s) = str s

abbrev pub tool_result : ChatCompletionMessage → Json
tool_result msg = object_of (
    ("type", str "tool_result")
    ∷ ("tool_use_id", optional_str msg.tool_call_id)
    ∷ ("content", if has_content msg.content then content_value msg.content else str "")
    ∷ [])

-- A result goes to the last message if that is the user's and holds a list, and else to a new one.
abbrev pub add_tool_result : Json → List AnthropicMessage → List AnthropicMessage
add_tool_result block [] = from_user (parts (block ∷ [])) ∷ []
add_tool_result block (from_user (parts blocks) ∷ []) =
    from_user (parts (blocks ++ block ∷ [])) ∷ []
add_tool_result block (m ∷ []) = m ∷ from_user (parts (block ∷ [])) ∷ []
add_tool_result block (m ∷ n ∷ rest) = m ∷ add_tool_result block (n ∷ rest)

abbrev pub join_system : String → String → String
join_system prompt s = if is_empty prompt then s else concat prompt (concat "\n" s)

-- `system_prompt` and `anthropic_messages`, as the loop builds them.
pub record Draft : Type 0 where
  pub prompt : String
  pub sent : List AnthropicMessage

abbrev pub empty_draft : Draft
empty_draft = record { prompt = ""; sent = [] }

abbrev pub append_message : Draft → AnthropicMessage → Draft
append_message draft m = record draft { sent = draft.sent ++ m ∷ [] }

abbrev pub by_role : Python → Role → ChatCompletionMessage → Draft → Result Draft
by_role python system msg draft =
    ok (record draft { prompt = join_system draft.prompt (str_content python msg.content) })
by_role python user msg draft =
    map_result (λ content. append_message draft (from_user content))
      (convert_content_to_anthropic msg.content)
by_role python assistant msg draft =
    map_result (λ blocks. append_message draft (from_assistant blocks)) (content_blocks python msg)
by_role python tool msg draft =
    ok (record draft { sent = add_tool_result (tool_result msg) draft.sent })

abbrev pub convert_message : Python → ChatCompletionMessage → Draft → Result Draft
convert_message python msg draft = by_role python msg.role msg draft

abbrev pub convert_messages : Python → List ChatCompletionMessage → Draft → Result Draft
convert_messages python [] draft = ok draft
convert_messages python (msg ∷ rest) draft =
    convert_message python msg draft >>= convert_messages python rest

abbrev pub max_tokens_of : Option ℕ → ℕ
max_tokens_of none = 4096
max_tokens_of (some zero) = 4096
max_tokens_of (some (suc n)) = suc n

abbrev pub scaled_temperature : Option Float → Option Float
scaled_temperature none = none
scaled_temperature (some t) = some (at_most_one (at_least_zero (halved t)))

unfoldable pub translate_request : Python → ChatCompletionRequest → String → Result AnthropicData
translate_request python request provider_model =
    convert_messages python request.messages empty_draft >>= λ draft.
    tools_and_choice request.tools request.tool_choice >>= λ (tools, tool_choice). ok record {
      model = provider_model;
      max_tokens = max_tokens_of request.max_tokens;
      temperature = scaled_temperature request.temperature;
      top_p = request.top_p;
      system_prompt = if is_empty draft.prompt then none else some draft.prompt;
      messages = draft.sent;
      tools = tools;
      tool_choice = tool_choice;
    }
