-- ===== src/Providers/Anthropic/Tools.antt =====
-- app/providers/anthropic.py: the tools of a request, and the choice among them.
use cortex_cloud_api.Prelude.{str_eq, Option, none, some, List, [], ◌∷◌, if◌then◌else◌}
use cortex_cloud_api.Effects.{Result, ok}
use cortex_cloud_api.Effects.Results.{◌>>=◌, map_result, traverse}
use cortex_cloud_api.Json.{Json, str, obj, end, object_of, is_true}
use cortex_cloud_api.Json.Access.{get, get_or, is_str}
use cortex_cloud_api.Providers.Images.{concat_items}
use cortex_cloud_api.Schemas.{ToolChoice, named, chosen}

abbrev tool_schema : Json → Result (List Json)
tool_schema entry = get_or entry "function" (obj end) >>= λ func. get func "name" >>= λ name.
    get_or func "description" (str "") >>= λ description.
    get_or func "parameters" (object_of (("type", str "object") ∷ ("properties", obj end) ∷ []))
    >>= λ schema. ok (
        object_of (("name", name) ∷ ("description", description) ∷ ("input_schema", schema) ∷ [])
        ∷ [])

abbrev pub convert_tool : Json → Result (List Json)
convert_tool entry =
    get entry "type" >>= λ type. (if is_str "function" type then tool_schema entry else ok [])

abbrev convert_tools : List Json → Result (List Json)
convert_tools tools = map_result concat_items (traverse convert_tool tools)

abbrev named_tool : Json → Option Json
named_tool name =
    if is_true name then some (object_of (("type", str "tool") ∷ ("name", name) ∷ [])) else none

abbrev pub convert_tool_choice : Option ToolChoice → Result (Option Json)
convert_tool_choice none = ok none
convert_tool_choice (some (named choice)) = ok (
    if str_eq choice "auto"
    then some (object_of (("type", str "auto") ∷ []))
    else if str_eq choice "required"
    then some (object_of (("type", str "any") ∷ []))
    else none)
convert_tool_choice (some (chosen end)) = ok none
convert_tool_choice (some (chosen fields)) = get_or (obj fields) "function" (obj end) >>= λ func.
    get func "name" >>= λ name. ok (named_tool name)

abbrev unless_empty : List Json → Option (List Json)
unless_empty [] = none
unless_empty items = some items

-- The tools and the choice among them, which is dropped where there are no tools.
abbrev pub tools_and_choice :
    Option (List Json) → Option ToolChoice → Result (Option (List Json) × Option Json)
tools_and_choice none choice = ok (none, none)
tools_and_choice (some []) choice = ok (none, none)
tools_and_choice (some tools) choice = convert_tools tools >>= λ translated.
    convert_tool_choice choice >>= λ chosen_tool. ok (unless_empty translated, chosen_tool)
