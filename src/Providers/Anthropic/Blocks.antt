-- ===== src/Providers/Anthropic/Blocks.antt =====
-- app/providers/anthropic.py: a reply of Anthropic's with the blocks that it documents and any
-- fields beside those that the code reads, what the
-- client gets for it, and what goes back to Anthropic when the client sends that message again.
use mathlib.Core.List.{append_assoc, append-nil}
use cortex_cloud_api.Prelude.{
  ℕ, String, Option, none, some, List, [], ◌∷◌, ◌++◌, map, ◌≡◌, refl, ap, ◌∙◌, All, inl, inr,
  Bool-cases, if◌then◌else◌,
}
use cortex_cloud_api.Prelude.Int.{ℤ, ◌+ℤ◌}
use cortex_cloud_api.Prelude.Strings.{concat_assoc, concat-empty, empty-concat}
use cortex_cloud_api.Prelude.Text.{concat, is_empty}
use cortex_cloud_api.Effects.{ok}
use cortex_cloud_api.Effects.Results.{traverse}
use cortex_cloud_api.Json.{Json, int, str, arr, object_of, elems_of, elems}
use cortex_cloud_api.Providers.{Python}
use cortex_cloud_api.Providers.Images.{has_content, content_value}
use cortex_cloud_api.Providers.Anthropic.Content.{text_block}
use cortex_cloud_api.Providers.Anthropic.Reply.{
  Read, openai_call, read_blocks, finish_of, unless_blank, unless_none, translate_response,
}
use cortex_cloud_api.Providers.Anthropic.Request.{tool_use, content_blocks, calls_of}
use cortex_cloud_api.Schemas.{
  assistant, Content, absent, text, ChatCompletionMessage, ChoiceMessage, ChatCompletionChoice,
  ChatCompletionResponse,
}

pub data Block : Type 0 where
  text_part : String → Block
  tool_part : String → String → Json → Block

abbrev pub block_data : Block → Json
block_data (text_part s) = object_of (("type", str "text") ∷ ("text", str s) ∷ [])
block_data (tool_part id name input) =
    object_of
      (("type", str "tool_use") ∷ ("id", str id) ∷ ("name", str name) ∷ ("input", input) ∷ [])

-- The other fields of a reply, and of its usage.
pub record Others : Type 0 where
  pub reply : List (String × Json)
  pub usage : List (String × Json)

abbrev pub reply_data : String → List Block → String → ℤ → ℤ → Others → Json
reply_data id blocks reason input output o = object_of (
    ("id", str id)
    ∷ ("type", str "message")
    ∷ ("role", str "assistant")
    ∷ ("content", arr (elems_of (map block_data blocks)))
    ∷ ("stop_reason", str reason)
    ∷ ("usage", object_of (("input_tokens", int input) ∷ ("output_tokens", int output) ∷ o.usage))
    ∷ o.reply)

-- The texts of the blocks, one behind the other.
abbrev pub all_text : List Block → String
all_text [] = ""
all_text (text_part s ∷ rest) = concat s (all_text rest)
all_text (tool_part id name input ∷ rest) = all_text rest

-- The blocks that use a tool.
abbrev pub tool_parts : List Block → List Json
tool_parts [] = []
tool_parts (text_part s ∷ rest) = tool_parts rest
tool_parts (tool_part id name input ∷ rest) = block_data (tool_part id name input) ∷ tool_parts rest

abbrev pub calls_made : Python → List Block → List Json
calls_made python [] = []
calls_made python (text_part s ∷ rest) = calls_made python rest
calls_made python (tool_part id name input ∷ rest) =
    openai_call python (str id) (str name) input ∷ calls_made python rest

read_blocks-block_data :
    (python : Python) (blocks : List Block) (r : Read)
    → read_blocks python (map block_data blocks) r
      ≡ ok (record {
        content_text = concat r.content_text (all_text blocks);
        calls = r.calls ++ calls_made python blocks;
      })
read_blocks-block_data python [] r = rw (concat-empty, append-nil) refl
read_blocks-block_data python (text_part s ∷ rest) r =
    rw (← concat_assoc) (read_blocks-block_data python rest _)
read_blocks-block_data python (tool_part id name input ∷ rest) r =
    read_blocks-block_data python rest _ ∙ rw append_assoc refl

pub elems-elems_of : (js : List Json) → elems (elems_of js) ≡ js
elems-elems_of [] = refl
elems-elems_of (j ∷ js) = ap (λ t. j ∷ t) (elems-elems_of js)

-- What the client gets for a reply.
abbrev pub translated :
    Python → ℕ → String → String → List Block → String → ℤ → ℤ → ChatCompletionResponse
translated python now model id blocks reason input output = record {
  id = id;
  created = now;
  model = model;
  choices =
      record {
        index = 0;
        message = record {
          role = "assistant";
          content = unless_blank (all_text blocks);
          tool_calls = unless_none (calls_made python blocks);
        };
        finish_reason = some (finish_of (str reason));
      }
      ∷ [];
  usage = record {
    prompt_tokens = input;
    completion_tokens = output;
    total_tokens = input +ℤ output;
  };
}

-- A reply of text and tool_use blocks is answered with its texts as one, its tool calls in order,
-- its reason, its two counts of tokens and their sum, under the model's name at the gateway.
pub translate_response_lem :
    (python : Python) (fresh : String) (now : ℕ) (model id : String) (blocks : List Block)
    (reason : String) (input output : ℤ) (o : Others)
    → translate_response python fresh now (reply_data id blocks reason input output o) model
      ≡ ok (translated python now model id blocks reason input output)
unfolding translate_response
translate_response_lem python fresh now model id blocks reason input output o =
    rw (elems-elems_of (map block_data blocks)) (
      rw (read_blocks-block_data python blocks (record { content_text = ""; calls = [] }))
        (rw empty-concat refl))

-- The message as a client sends it again, in its next request.
abbrev content_back : Option String → Content
content_back none = absent
content_back (some s) = text s

abbrev pub sent_back : ChoiceMessage → ChatCompletionMessage
sent_back message = record {
  role = assistant;
  content = content_back message.content;
  name = none;
  tool_call_id = none;
  tool_calls = message.tool_calls;
}

-- Anthropic's blocks with the text first, in one block, unless it is empty.
abbrev pub normal : List Block → List Json
normal blocks =
    if is_empty (all_text blocks)
    then tool_parts blocks
    else text_block (str (all_text blocks)) ∷ tool_parts blocks

-- `json.loads` reads back what `json.dumps` wrote of a tool's input.
abbrev pub IsReadBack : Python → Block → Type 0
IsReadBack python (text_part s) = Unit
IsReadBack python (tool_part id name input) = python.loads (python.dumps input) ≡ some input

tool_use-calls_made :
    (python : Python) (blocks : List Block)
    → All (IsReadBack python) blocks
    → traverse (tool_use python) (calls_made python blocks) ≡ ok (tool_parts blocks)
tool_use-calls_made python [] h = refl
tool_use-calls_made python (text_part s ∷ rest) (h, hs) = tool_use-calls_made python rest hs
tool_use-calls_made python (tool_part id name input ∷ rest) (h, hs) =
    rw h (rw (tool_use-calls_made python rest hs) refl)

-- The tool calls as the message carries them: none in place of an empty list.
calls_back : (calls : List Json) → calls_of (unless_none calls) ≡ calls
calls_back [] = refl
calls_back (call ∷ rest) = refl

content_blocks-uses :
    (python : Python) (msg : ChatCompletionMessage) (uses : List Json)
    → traverse (tool_use python) (calls_of msg.tool_calls) ≡ ok uses
    → content_blocks python msg
      ≡ ok (if has_content msg.content then text_block (content_value msg.content) ∷ uses else uses)
unfolding content_blocks
content_blocks-uses python msg uses h = rw h refl

text_back :
    (s : String) (uses : List Json)
    → (if has_content (content_back (unless_blank s))
        then text_block (content_value (content_back (unless_blank s))) ∷ uses
        else uses)
      ≡ (if is_empty s then uses else text_block (str s) ∷ uses)
text_back s uses = elim (Bool-cases (is_empty s)) [ inl e ↦ rw e refl | inr e ↦ rw e (rw e refl) ]

content_blocks-sent_back :
    (python : Python) (blocks : List Block) (role : String)
    → All (IsReadBack python) blocks
    → content_blocks python (
        sent_back (record {
          role = role;
          content = unless_blank (all_text blocks);
          tool_calls = unless_none (calls_made python blocks);
        }))
      ≡ ok (normal blocks)
content_blocks-sent_back python blocks role h =
    content_blocks-uses python _ (tool_parts blocks) (
      ap (traverse (tool_use python)) (calls_back (calls_made python blocks))
      ∙ tool_use-calls_made python blocks h)
    ∙ ap ok (text_back (all_text blocks) (tool_parts blocks))

-- If json.loads reads back the tools' inputs that json.dumps wrote, the message of a translated reply
-- goes back to Anthropic, when the client sends it again, as the blocks that Anthropic had sent:
-- the tool uses with their ids, names and inputs in their order, behind the text as one block.
pub content_blocks-translate_response :
    (python : Python) (fresh : String) (now : ℕ) (model id : String) (blocks : List Block)
    (reason : String) (input output : ℤ) (o : Others) (r : ChatCompletionResponse)
    → translate_response python fresh now (reply_data id blocks reason input output o) model ≡ ok r
    → All (IsReadBack python) blocks
    → All
        (λ (choice : ChatCompletionChoice).
          content_blocks python (sent_back choice.message) ≡ ok (normal blocks))
        r.choices
content_blocks-translate_response python fresh now model id blocks reason input output o r e h =
    let same : translated python now model id blocks reason input output ≡ r =
      cc (translate_response_lem python fresh now model id blocks reason input output o, e) in
    rw (← same) (content_blocks-sent_back python blocks "assistant" h, tt)
