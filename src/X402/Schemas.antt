-- ===== src/X402/Schemas.antt =====
-- The schemas of the paid routes that app/middleware/x402.py puts into its challenges.
use cortex_cloud_api.Prelude.{String, str_eq, List, [], ◌∷◌, map, if◌then◌else◌}
use cortex_cloud_api.Json.{Json, str, arr, elems_of, object_of}

abbrev typed : String → Json
typed name = object_of (("type", str name) ∷ [])

abbrev described : String → String → Json
described name text = object_of (("type", str name) ∷ ("description", str text) ∷ [])

abbrev texts : List String → Json
texts names = arr (elems_of (map str names))

abbrev object_schema : List (String × Json) → List String → Json
object_schema properties required = object_of (
    ("type", str "object")
    ∷ ("properties", object_of properties)
    ∷ ("required", texts required)
    ∷ [])

abbrev open_schema : List (String × Json) → Json
open_schema properties =
    object_of (("type", str "object") ∷ ("properties", object_of properties) ∷ [])

abbrev message_schema : Json
message_schema =
    object_schema
      ((
        "role",
        object_of (
            ("type", str "string")
            ∷ ("enum", texts ("system" ∷ "user" ∷ "assistant" ∷ "tool" ∷ []))
            ∷ []),
      )
        ∷ ("content", typed "string")
        ∷ [])
      ("role" ∷ "content" ∷ [])

-- The schemas of the request and of the response.
pub record Schemas : Type 0 where
  pub input : Json
  pub output : Json

abbrev completions_schemas : Schemas
completions_schemas = record {
  input =
      object_schema
        (("model", described "string" "Model id, e.g. gemini/gemini-2.0-flash")
          ∷ ("messages", object_of (("type", str "array") ∷ ("items", message_schema) ∷ []))
          ∷ ("stream", typed "boolean")
          ∷ ("temperature", typed "number")
          ∷ ("max_tokens", typed "integer")
          ∷ [])
        ("model" ∷ "messages" ∷ []);
  output = open_schema (
      ("id", typed "string")
      ∷ ("object", typed "string")
      ∷ ("choices", typed "array")
      ∷ ("usage", typed "object")
      ∷ []);
}

abbrev embeddings_schemas : Schemas
embeddings_schemas = record {
  input =
      object_schema
        (("input", described "string" "Text to embed")
          ∷ ("model", described "string" "Embedding model id, e.g. gemini/text-embedding-004")
          ∷ [])
        ("input" ∷ []);
  output =
      open_schema
        (("object", typed "string") ∷ ("data", typed "array") ∷ ("model", typed "string") ∷ []);
}

-- `BAZAAR_SCHEMAS.get(path, …)`
abbrev pub bazaar_schemas : String → Schemas
bazaar_schemas path =
    if str_eq path "/x402/v1/chat/completions"
    then completions_schemas
    else if str_eq path "/x402/v1/embeddings"
    then embeddings_schemas
    else record { input = open_schema []; output = open_schema [] }
