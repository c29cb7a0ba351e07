-- ===== src/X402/Mcp.antt =====
-- app/x402/bazaar_routes.py: the MCP endpoint. The chunks of the request's body are a parameter, each
-- as its text.
use cortex_cloud_api.Prelude.{String, Option, none, some, List, [], ◌∷◌, ◌++◌, map, if◌then◌else◌}
use cortex_cloud_api.Prelude.Int.{pos}
use cortex_cloud_api.Prelude.Strings.{strip_by, drop_chars}
use cortex_cloud_api.Prelude.Text.{codes, concat, starts_with, is_blank}
use cortex_cloud_api.Effects.{Result, ok, raised}
use cortex_cloud_api.Effects.Results.{◌>>=◌}
use cortex_cloud_api.Json.{Json, null, int, str, arr, obj, end, elems_of, object_of}
use cortex_cloud_api.Json.Access.{get, get_or, is_str}
use cortex_cloud_api.Providers.{Python}
use cortex_cloud_api.X402.Challenge.{X402Settings}

abbrev pub or_null : Option String → Json
or_null none = null
or_null (some s) = str s

-- `_sse`
unfoldable pub sse : Python → Json → String
sse python value = concat "data: " (concat (python.dumps value) "\n\n")

abbrev rpc : Json → Json → Json
rpc id result = object_of (("jsonrpc", str "2.0") ∷ ("id", id) ∷ ("result", result) ∷ [])

abbrev pub initialize : Json
initialize = rpc (int (pos 1)) (
    object_of (
      ("protocolVersion", str "2024-11-05")
      ∷ ("capabilities", object_of (("tools", obj end) ∷ []))
      ∷ ("serverInfo", object_of (("name", str "CortexCloud") ∷ ("version", str "1.0") ∷ []))
      ∷ []))

abbrev typed : String → Json
typed type = object_of (("type", str type) ∷ [])

abbrev tool : String → String → List (String × Json) → List String → Json
tool name description properties required = object_of (
    ("name", str name)
    ∷ ("description", str description)
    ∷ (
      "inputSchema",
      object_of (
          ("type", str "object")
          ∷ ("properties", object_of properties)
          ∷ ("required", arr (elems_of (map str required)))
          ∷ []),
    )
    ∷ [])

abbrev pub tools : List Json
tools =
    tool "chat_completions"
      "OpenAI-compatible chat completion via CortexCloud x402 gateway (pay per call, USDC on Base)."
      (("model", typed "string")
        ∷ ("messages", object_of (("type", str "array") ∷ ("items", typed "object") ∷ []))
        ∷ ("stream", typed "boolean")
        ∷ [])
      ("model" ∷ "messages" ∷ [])
    ∷ tool "embeddings"
        "OpenAI-compatible text embeddings via CortexCloud x402 gateway (pay per call, USDC on Base)."
        (("input", typed "string") ∷ ("model", typed "string") ∷ []) ("input" ∷ [])
    ∷ []

abbrev pub tools_list : Json
tools_list = rpc (int (pos 2)) (object_of (("tools", arr (elems_of tools)) ∷ []))

module _ (settings : X402Settings) (python : Python) where
  -- What a tool costs, and where to call it.
  abbrev pub quote : String → String → String → Json
  quote path amount note = object_of (
      ("endpoint", str (concat settings.resource_base path))
      ∷ ("method", str "POST")
      ∷ (
        "payment",
        object_of (
            ("protocol", str "x402")
            ∷ ("scheme", str "exact")
            ∷ ("network", str settings.network)
            ∷ ("asset", str "0x833589fCD6eDb6E08f4c7C32D4f71b54bdA02913")
            ∷ ("payTo", or_null settings.wallet_address)
            ∷ ("maxAmountRequired", str amount)
            ∷ []),
      )
      ∷ ("note", str note)
      ∷ [])

  -- `f"unknown tool {name}"`
  abbrev unknown : Json → Json
  unknown (str name) = object_of (("error", str (concat "unknown tool " name)) ∷ [])
  unknown name = object_of (("error", str (concat "unknown tool " (python.str_of name))) ∷ [])

  unfoldable pub call_tool : Json → Json
  call_tool name =
      if is_str "chat_completions" name
      then quote "/x402/v1/chat/completions" "5000"
          "Send an x402 PaymentRequirements challenge; pay in USDC on Base, then POST your request with the X-PAYMENT header."
      else if is_str "embeddings" name
      then quote "/x402/v1/embeddings" "1000"
          "Pay per call in USDC on Base via x402, then POST with X-PAYMENT header."
      else unknown name

  abbrev pub tool_answer : Json → Json → Json
  tool_answer id name = rpc id (
      object_of (
        (
          "content",
          arr (
              elems_of (
                object_of
                  (("type", str "text") ∷ ("text", str (python.dumps (call_tool name))) ∷ [])
                ∷ [])),
        )
        ∷ []))

  abbrev answer_call : Json → Json → Result (List Json)
  answer_call msg id = get_or msg "params" (obj end) >>= λ params.
      get params "name" >>= λ name. ok (tool_answer id name ∷ [])

  abbrev answer_method : Json → Json → Json → Result (List Json)
  answer_method msg id method = if is_str "tools/call" method then answer_call msg id else ok []

  -- The answers to a message: one for a call of a tool, none for any other method.
  unfoldable pub answers_to : Json → Result (List Json)
  answers_to msg = get msg "method" >>= λ method. get msg "id" >>= λ id. answer_method msg id method

  abbrev on_message : Option Json → Result (List Json)
  on_message none = ok []
  on_message (some msg) = answers_to msg

  unfoldable pub on_chunk : String → Result (List Json)
  on_chunk chunk =
      if starts_with (codes (strip_by is_blank chunk)) (codes "data:")
      then on_message (python.loads (strip_by is_blank (drop_chars 5 (strip_by is_blank chunk))))
      else ok []

  -- The answers to the chunks, up to an exception.
  abbrev later : Result (List Json) → List Json × Result (Unit {0}) → List Json × Result (Unit {0})
  later (ok answers) (rest, ending) = (answers ++ rest, ending)
  later (raised e) rest = ([], raised e)

  abbrev pub on_chunks : List String → List Json × Result (Unit {0})
  on_chunks [] = ([], ok tt)
  on_chunks (chunk ∷ rest) = later (on_chunk chunk) (on_chunks rest)

  -- What the stream sends, and how it ends.
  unfoldable pub mcp_sse : List String → List String × Result (Unit {0})
  mcp_sse chunks =
      let (answers, ending) = on_chunks chunks in
      (map (sse python) (initialize ∷ tools_list ∷ answers), ending)
