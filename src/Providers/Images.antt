-- ===== src/Providers/Images.antt =====
-- app/providers/anthropic.py and gemini.py: an image in a data URL, which both translations take
-- apart in the same way; and the content of a message as Python reads it.
use cortex_cloud_api.Prelude.{
  String, Bool, true, false, Option, none, some, List, [], ◌∷◌, ◌++◌, if◌then◌else◌,
}
use cortex_cloud_api.Prelude.Strings.{split_on}
use cortex_cloud_api.Prelude.Text.{codes, starts_with, is_empty}
use cortex_cloud_api.Json.{Json, null, str, arr, elems_of}
use cortex_cloud_api.Providers.{Python}
use cortex_cloud_api.Schemas.{Content, absent, text, parts}

-- `img_url.split(";base64,")` into a prefix and the data, and `prefix.split("data:")[1]`; the
-- exception of another number of parts is none.
abbrev second : List String → Option String
second (a ∷ b ∷ rest) = some b
second _ = none

abbrev media_and_data : List String → Option (String × String)
media_and_data (prefix ∷ base64_data ∷ []) = elim (second (split_on "data:" prefix)) [
  | none ↦ none
  | some media_type ↦ some (media_type, base64_data)
]
media_and_data _ = none

abbrev pub data_url : String → Option (String × String)
data_url url =
    if starts_with (codes url) (codes "data:image/")
    then media_and_data (split_on ";base64," url)
    else none

-- Python's truth value of a content, and the content as a value.
abbrev pub has_content : Content → Bool
has_content absent = false
has_content (text s) = if is_empty s then false else true
has_content (parts []) = false
has_content (parts (item ∷ rest)) = true

abbrev pub content_value : Content → Json
content_value absent = null
content_value (text s) = str s
content_value (parts items) = arr (elems_of items)

-- `str(msg.content)`
abbrev pub str_content : Python → Content → String
str_content python absent = "None"
str_content python (text s) = s
str_content python (parts items) = python.str_of (arr (elems_of items))

abbrev pub concat_items : List (List Json) → List Json
concat_items [] = []
concat_items (items ∷ rest) = items ++ concat_items rest
