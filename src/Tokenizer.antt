-- ===== src/Tokenizer.antt =====
-- app/usage/tokenizer.py: local counts of tokens. tiktoken is a parameter.
use cortex_cloud_api.Prelude.{
  ℕ, ◌+◌, ◌/◌, String, str_eq, Bool, false, ◌||◌, Option, none, some, List, [], ◌∷◌, length,
  if◌then◌else◌,
}
use cortex_cloud_api.Prelude.Text.{codes, contains, lower, is_empty}
use cortex_cloud_api.Effects.{Exn, other, message, Result, ok, raised}
use cortex_cloud_api.Json.{Json, str, arr, obj, Fields, end, field, elems, lookup_field, is_true}
use cortex_cloud_api.Schemas.{
  Role, system, user, assistant, tool, Content, absent, text, parts, ChatCompletionMessage,
}

-- The tokens of a text in an encoding; `error` is any other exception than a KeyError.
pub data Count : Type 0 where
  counted : ℕ → Count
  key_error error : Count

pub record Tiktoken : Type 0 where
  -- with `tiktoken.get_encoding("cl100k_base")`
  pub cl100k_base : String → Count
  -- with `tiktoken.encoding_for_model(model_name)`
  pub for_model : String → String → Count

abbrev or_estimate : String → Count → ℕ
or_estimate s (counted n) = n
or_estimate s _ = length (codes s) / 4

abbrev or_base : Count → Count → Count
or_base base key_error = base
or_base base count = count

module _ (t : Tiktoken) where
  unfoldable pub count_tokens : String → String → ℕ
  count_tokens s model_name =
      if is_empty s
      then 0
      else if contains (lower model_name) (codes "claude")
          || contains (lower model_name) (codes "gemini")
      then or_estimate s (t.cl100k_base s)
      else or_estimate s (or_base (t.cl100k_base s) (t.for_model model_name s))

  abbrev fields_length : Fields → ℕ
  fields_length end = 0
  fields_length (field k v fs) = 1 + fields_length fs

  abbrev type_error : Exn
  type_error = other (message "TypeError")

  -- A value where a text belongs: an empty one counts nothing; of another only a length is left.
  abbrev count_value : Json → String → Result ℕ
  count_value (str s) model_name = ok (count_tokens s model_name)
  count_value (arr es) model_name = ok (length (elems es) / 4)
  count_value (obj fs) model_name = ok (fields_length fs / 4)
  count_value value model_name = if is_true value then raised type_error else ok 0

  abbrev is_text : String → Option Json → Bool
  is_text s (some (str name)) = str_eq name s
  is_text s _ = false

  abbrev count_text : Option Json → String → Result ℕ
  count_text none model_name = ok 0
  count_text (some value) model_name = count_value value model_name

  abbrev count_part : Json → String → Result ℕ
  count_part (obj fs) model_name =
      if is_text "text" (lookup_field "type" fs)
      then count_text (lookup_field "text" fs) model_name
      else if is_text "image_url" (lookup_field "type" fs)
      then ok 85
      else ok 0
  count_part _ model_name = ok 0

  abbrev pub add : ℕ → Result ℕ → Result ℕ
  add n (ok m) = ok (n + m)
  add n (raised e) = raised e

  abbrev pub sum : Result ℕ → Result ℕ → Result ℕ
  sum (ok n) rest = add n rest
  sum (raised e) rest = raised e

  abbrev count_parts : List Json → String → Result ℕ
  count_parts [] model_name = ok 0
  count_parts (part ∷ rest) model_name =
      sum (count_part part model_name) (count_parts rest model_name)

  -- `getattr(msg, "content", None) or msg.get("content", "")`: a message is a pydantic model, which
  -- has no `get`, so an empty content is an AttributeError.
  abbrev pub no_get : Exn
  no_get = other (message "AttributeError: 'ChatCompletionMessage' object has no attribute 'get'")

  abbrev pub count_content : Content → String → Result ℕ
  count_content absent model_name = raised no_get
  count_content (text s) model_name =
      if is_empty s then raised no_get else ok (count_tokens s model_name)
  count_content (parts []) model_name = raised no_get
  count_content (parts (part ∷ rest)) model_name = count_parts (part ∷ rest) model_name

  abbrev role_name : Role → String
  role_name system = "system"
  role_name user = "user"
  role_name assistant = "assistant"
  role_name tool = "tool"

  abbrev pub count_message : ChatCompletionMessage → String → Result ℕ
  count_message msg model_name =
      add (count_tokens (role_name msg.role) model_name) (count_content msg.content model_name)

  abbrev pub count_from : List ChatCompletionMessage → String → Result ℕ
  count_from [] model_name = ok 3
  count_from (msg ∷ rest) model_name =
      sum (count_message msg model_name) (count_from rest model_name)

  unfoldable pub count_messages_tokens : List ChatCompletionMessage → String → Result ℕ
  count_messages_tokens messages model_name = count_from messages model_name
