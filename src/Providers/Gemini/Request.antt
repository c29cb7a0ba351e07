-- ===== src/Providers/Gemini/Request.antt =====
-- app/providers/gemini.py: `_translate_request`.
use cortex_cloud_api.Prelude.{
  ℕ, String, Bool, true, false, Option, none, some, List, [], ◌∷◌, ◌++◌, if◌then◌else◌,
}
use cortex_cloud_api.Prelude.Floats.{Float}
use cortex_cloud_api.Effects.{Result, ok, raised}
use cortex_cloud_api.Effects.Results.{◌>>=◌, map_result, traverse}
use cortex_cloud_api.Json.{Json, str, obj, end, object_of}
use cortex_cloud_api.Json.Access.{get, get_or, is_str, attribute_error}
use cortex_cloud_api.Providers.{Python, function_of}
use cortex_cloud_api.Providers.Images.{
  data_url, concat_items, has_content, content_value, str_content,
}
use cortex_cloud_api.Schemas.{
  Role, system, user, tool, Content, absent, text, parts, ChatCompletionMessage,
  ChatCompletionRequest, ResponseFormat, json_object, text_format,
}

pub record GenerationConfig : Type 0 where
  pub temperature : Option Float
  pub top_p : Option Float
  pub max_output_tokens : Option ℕ
  -- `responseMimeType`, which is "application/json" if it is set
  pub is_json : Bool

pub data GeminiRole : Type 0 where
  from_user from_model : GeminiRole

pub record GeminiContent : Type 0 where
  pub role : GeminiRole
  pub parts : List Json

pub record GeminiData : Type 0 where
  pub generation_config : Option GenerationConfig
  pub contents : List GeminiContent
  pub system_instruction : Option (List Json)
  pub function_declarations : Option (List Json)

abbrev unless_default : GenerationConfig → Option GenerationConfig
unless_default config = elim config.temperature [
  | some t ↦ some config
  | none ↦ elim config.top_p [
    | some p ↦ some config
    | none ↦ elim config.max_output_tokens [
      | some n ↦ some config
      | none ↦ if config.is_json then some config else none
    ]
  ]
]

abbrev is_json_format : Option ResponseFormat → Bool
is_json_format (some json_object) = true
is_json_format (some text_format) = false
is_json_format none = false

abbrev pub generation_config_of : ChatCompletionRequest → Option GenerationConfig
generation_config_of request = unless_default record {
  temperature = request.temperature;
  top_p = request.top_p;
  max_output_tokens = request.max_tokens;
  is_json = is_json_format request.response_format;
}

abbrev text_part : Json → Json
text_part value = object_of (("text", value) ∷ [])

abbrev inline_data : Option (String × String) → List Json
inline_data none = []
inline_data (some (mime_type, base64_data)) =
    object_of (
      ("inlineData", object_of (("mimeType", str mime_type) ∷ ("data", str base64_data) ∷ [])) ∷ [])
    ∷ []

abbrev image_of : Json → Result (List Json)
image_of (str url) = ok (inline_data (data_url url))
image_of _ = raised attribute_error

abbrev text_item : Json → Result (List Json)
text_item item = get item "text" >>= λ value. ok (text_part value ∷ [])

abbrev image_item : Json → Result (List Json)
image_item item = get_or item "image_url" (obj end) >>= λ image.
    get_or image "url" (str "") >>= λ url. image_of url

abbrev typed_item : Json → Json → Result (List Json)
typed_item type item =
    if is_str "text" type
    then text_item item
    else if is_str "image_url" type
    then image_item item
    else ok []

abbrev convert_item : Json → Result (List Json)
convert_item (obj item) = get (obj item) "type" >>= λ type. typed_item type (obj item)
convert_item item = ok []

abbrev pub convert_content_to_gemini : Content → Result (List Json)
convert_content_to_gemini (text s) = ok (text_part (str s) ∷ [])
convert_content_to_gemini (parts items) = map_result concat_items (traverse convert_item items)
convert_content_to_gemini absent = ok []

abbrev pub function_call : Python → Json → Result Json
function_call python call =
    map_result
      (λ (name, args).
        object_of (("functionCall", object_of (("name", name) ∷ ("args", args) ∷ [])) ∷ []))
      (function_of python call)

abbrev or_result : Content → Option Json → Json
or_result content none = object_of (("result", content_value content) ∷ [])
or_result content (some value) = value

-- `json.loads(msg.content or "{}")`, and `{"result": msg.content}` where that raises, as it does for
-- a list.
abbrev pub response_data : Python → Content → Json
response_data python (parts (item ∷ rest)) = or_result (parts (item ∷ rest)) none
response_data python (text s) =
    or_result (text s) (python.loads (if has_content (text s) then s else "{}"))
response_data python content = or_result content (python.loads "{}")

abbrev or_empty : Option String → String
or_empty none = ""
or_empty (some s) = s

abbrev pub function_response : Python → ChatCompletionMessage → Json
function_response python msg = object_of (
    (
      "functionResponse",
      object_of
          (("name", str (or_empty msg.name)) ∷ ("response", response_data python msg.content) ∷ []),
    )
    ∷ [])

-- The calls of a message if it has some, and else its content.
abbrev calls_or_content : Python → Content → Option (List Json) → Result (List Json)
calls_or_content python content (some (call ∷ rest)) = traverse (function_call python) (call ∷ rest)
calls_or_content python content _ = convert_content_to_gemini content

abbrev pub parts_by_role : Python → Role → ChatCompletionMessage → Result (List Json)
parts_by_role python tool msg = ok (function_response python msg ∷ [])
parts_by_role python _ msg = calls_or_content python msg.content msg.tool_calls

abbrev gemini_role : Role → GeminiRole
gemini_role user = from_user
gemini_role tool = from_user
gemini_role _ = from_model

-- `contents` and `system_instruction_parts`, as the loop builds them.
pub record Draft : Type 0 where
  pub contents : List GeminiContent
  pub instructions : List Json

abbrev add_content : Python → ChatCompletionMessage → Draft → Result Draft
add_content python msg draft =
    map_result
      (λ made. record draft {
        contents = draft.contents ++ record { role = gemini_role msg.role; parts = made } ∷ [];
      })
      (parts_by_role python msg.role msg)

abbrev by_role : Python → Role → ChatCompletionMessage → Draft → Result Draft
by_role python system msg draft = ok (record draft {
  instructions = draft.instructions ++ text_part (str (str_content python msg.content)) ∷ [];
})
by_role python _ msg draft = add_content python msg draft

abbrev pub convert_messages : Python → List ChatCompletionMessage → Draft → Result Draft
convert_messages python [] draft = ok draft
convert_messages python (msg ∷ rest) draft =
    by_role python msg.role msg draft >>= convert_messages python rest

abbrev declaration : Json → Result (List Json)
declaration entry = get_or entry "function" (obj end) >>= λ func. get func "name" >>= λ name.
    get_or func "description" (str "") >>= λ description.
    get_or func "parameters" (object_of (("type", str "OBJECT") ∷ ("properties", obj end) ∷ []))
    >>= λ schema. ok (
        object_of (("name", name) ∷ ("description", description) ∷ ("parameters", schema) ∷ [])
        ∷ [])

abbrev pub convert_tool : Json → Result (List Json)
convert_tool entry =
    get entry "type" >>= λ type. (if is_str "function" type then declaration entry else ok [])

abbrev unless_empty : List Json → Option (List Json)
unless_empty [] = none
unless_empty (item ∷ rest) = some (item ∷ rest)

abbrev tools_of : Option (List Json) → List Json
tools_of none = []
tools_of (some tools) = tools

unfoldable pub translate_request : Python → ChatCompletionRequest → Result GeminiData
translate_request python request =
    convert_messages python request.messages (record { contents = []; instructions = [] })
    >>= λ draft. traverse convert_tool (tools_of request.tools) >>= λ declared. ok record {
      generation_config = generation_config_of request;
      contents = draft.contents;
      system_instruction = unless_empty draft.instructions;
      function_declarations = unless_empty (concat_items declared);
    }
