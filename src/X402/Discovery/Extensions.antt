-- ===== src/X402/Discovery/Extensions.antt =====
-- app/x402/bazaar.py: the extensions of the routes and the tools. The two functions of the x402 SDK that write extensions
-- are a parameter.
use cortex_cloud_api.Prelude.{String, Option, none, some, [], ◌∷◌}
use cortex_cloud_api.Prelude.Int.{pos}
use cortex_cloud_api.Prelude.Text.{concat}
use cortex_cloud_api.Json.{Json, int, float, str, arr, obj, end, elems_of, object_of}
use cortex_cloud_api.X402.Challenge.{X402Settings}

pub record Sdk : Type 0 where
  -- by the input, its schema, the type of the body and the example of an output
  pub declare_discovery_extension : Json → Json → Option String → Json → Json
  -- by the name of the tool, its description, the schema of its input, the transport and the example
  pub declare_mcp_discovery_extension : String → String → Json → String → Json → Json

module _ (sdk : Sdk) where
  abbrev pub chat_completions_discovery : Json
  chat_completions_discovery =
      sdk.declare_discovery_extension
        (object_of (
          ("model", str "openai/gpt-4o-mini")
          ∷ (
            "messages",
            arr (
                elems_of ((object_of (("role", str "user") ∷ ("content", str "Hello") ∷ [])) ∷ [])),
          )
          ∷ []))
        (object_of (
          ("type", str "object")
          ∷ (
            "properties",
            object_of (
                (
                  "model",
                  object_of (
                      ("type", str "string")
                      ∷ (
                        "description",
                        str
                            "Model ID (gateway alias), e.g. 'gemini/gemini-1.5-pro', 'groq/llama-3.1-8b', 'nvidia/llama-3.1-8b-instruct', or any OpenRouter model.",
                      )
                      ∷ []),
                )
                ∷ (
                  "messages",
                  object_of (
                      ("type", str "array")
                      ∷ (
                        "items",
                        object_of (
                            ("type", str "object")
                            ∷ (
                              "properties",
                              object_of (
                                  (
                                    "role",
                                    object_of (
                                        ("type", str "string")
                                        ∷ (
                                          "enum",
                                          arr (
                                              elems_of (
                                                (str "system")
                                                ∷ (str "user")
                                                ∷ (str "assistant")
                                                ∷ [])),
                                        )
                                        ∷ []),
                                  )
                                  ∷ ("content", object_of (("type", str "string") ∷ []))
                                  ∷ []),
                            )
                            ∷ ("required", arr (elems_of ((str "role") ∷ (str "content") ∷ [])))
                            ∷ []),
                      )
                      ∷ ("description", str "Conversation messages.")
                      ∷ []),
                )
                ∷ (
                  "stream",
                  object_of
                      (("type", str "boolean") ∷ ("description", str "Stream SSE chunks.") ∷ []),
                )
                ∷ ("temperature", object_of (("type", str "number") ∷ []))
                ∷ ("max_tokens", object_of (("type", str "integer") ∷ []))
                ∷ []),
          )
          ∷ ("required", arr (elems_of ((str "model") ∷ (str "messages") ∷ [])))
          ∷ []))
        (some "json")
        (object_of (
          ("id", str "chatcmpl-xxx")
          ∷ ("object", str "chat.completion")
          ∷ ("model", str "openai/gpt-4o-mini")
          ∷ (
            "choices",
            arr (
                elems_of (
                  (object_of (
                    ("index", int (pos 0))
                    ∷ (
                      "message",
                      object_of (
                          ("role", str "assistant")
                          ∷ ("content", str "Hello! How can I help?")
                          ∷ []),
                    )
                    ∷ ("finish_reason", str "stop")
                    ∷ []))
                  ∷ [])),
          )
          ∷ (
            "usage",
            object_of (
                ("prompt_tokens", int (pos 9))
                ∷ ("completion_tokens", int (pos 10))
                ∷ ("total_tokens", int (pos 19))
                ∷ []),
          )
          ∷ []))

  abbrev pub embeddings_discovery : Json
  embeddings_discovery =
      sdk.declare_discovery_extension
        (object_of (("input", str "Text to embed") ∷ ("model", str "text-embedding-3-small") ∷ []))
        (object_of (
          ("type", str "object")
          ∷ (
            "properties",
            object_of (
                (
                  "input",
                  object_of (
                      ("type", str "string")
                      ∷ ("description", str "Text (or list of strings) to embed.")
                      ∷ []),
                )
                ∷ (
                  "model",
                  object_of
                      (("type", str "string") ∷ ("description", str "Embedding model ID.") ∷ []),
                )
                ∷ []),
          )
          ∷ ("required", arr (elems_of ((str "input") ∷ [])))
          ∷ []))
        (some "json")
        (object_of (
          ("object", str "list")
          ∷ (
            "data",
            arr (
                elems_of (
                  (object_of (
                    ("object", str "embedding")
                    ∷ ("index", int (pos 0))
                    ∷ (
                      "embedding",
                      arr (elems_of ((float "0.01") ∷ (float "-0.02") ∷ (float "0.03") ∷ [])),
                    )
                    ∷ []))
                  ∷ [])),
          )
          ∷ ("model", str "text-embedding-3-small")
          ∷ (
            "usage",
            object_of (("prompt_tokens", int (pos 4)) ∷ ("total_tokens", int (pos 4)) ∷ []),
          )
          ∷ []))

  abbrev pub models_discovery : Json
  models_discovery =
      sdk.declare_discovery_extension (obj end)
        (object_of (("type", str "object") ∷ ("properties", obj end) ∷ [])) none
        (object_of (
          ("object", str "list")
          ∷ (
            "data",
            arr (
                elems_of (
                  (object_of (
                    ("id", str "gemini/gemini-1.5-pro")
                    ∷ ("created", int (pos 1_718_000_000))
                    ∷ ("owned_by", str "gemini")
                    ∷ []))
                  ∷ [])),
          )
          ∷ []))

  module _ (settings : X402Settings) where
    abbrev pub chat_mcp_discovery : Json
    chat_mcp_discovery =
        sdk.declare_mcp_discovery_extension "chat_completions"
          "OpenAI-compatible chat completion via CortexCloud x402 gateway. Client pays per call in USDC on Base via x402."
          (object_of (
            ("type", str "object")
            ∷ (
              "properties",
              object_of (
                  ("model", object_of (("type", str "string") ∷ []))
                  ∷ (
                    "messages",
                    object_of (
                        ("type", str "array")
                        ∷ ("items", object_of (("type", str "object") ∷ []))
                        ∷ []),
                  )
                  ∷ ("stream", object_of (("type", str "boolean") ∷ []))
                  ∷ []),
            )
            ∷ ("required", arr (elems_of ((str "model") ∷ (str "messages") ∷ [])))
            ∷ []))
          "sse"
          (object_of (
            ("endpoint", str (concat settings.resource_base "/x402/v1/chat/completions"))
            ∷ ("method", str "POST")
            ∷ ("payment", str "x402 USDC on Base (eip155:8453)")
            ∷ []))

    abbrev pub embeddings_mcp_discovery : Json
    embeddings_mcp_discovery =
        sdk.declare_mcp_discovery_extension "embeddings"
          "OpenAI-compatible text embeddings via CortexCloud x402 gateway. Client pays per call in USDC on Base via x402."
          (object_of (
            ("type", str "object")
            ∷ (
              "properties",
              object_of (
                  ("input", object_of (("type", str "string") ∷ []))
                  ∷ ("model", object_of (("type", str "string") ∷ []))
                  ∷ []),
            )
            ∷ ("required", arr (elems_of ((str "input") ∷ [])))
            ∷ []))
          "sse"
          (object_of (
            ("endpoint", str (concat settings.resource_base "/x402/v1/embeddings"))
            ∷ ("method", str "POST")
            ∷ ("payment", str "x402 USDC on Base (eip155:8453)")
            ∷ []))
