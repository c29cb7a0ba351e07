-- ===== src/Providers/Anthropic/Events.antt =====
-- app/providers/anthropic.py: the events of a Messages stream, how they stand in the body, and the
-- message that they make up. Of the fields that Anthropic documents, those that the code reads are
-- named; the objects may have any others.
use cortex_cloud_api.Prelude.{ℕ, String, some, List, [], ◌∷◌, ◌++◌, ◌≡◌}
use cortex_cloud_api.Prelude.Int.{ℤ, pos, ◌+ℤ◌}
use cortex_cloud_api.Prelude.Strings.{strip_by}
use cortex_cloud_api.Prelude.Text.{concat, is_blank}
use cortex_cloud_api.Json.{Json, int, str, obj, end, object_of}
use cortex_cloud_api.Providers.{Python, Arrived}
use cortex_cloud_api.Providers.Anthropic.Reply.{finish_of}
use cortex_cloud_api.Providers.View.{View, nothing, put_call, extend_call}

pub data Event : Type 0 where
  -- the id of the message and its input tokens
  message_start : String → ℤ → Event
  text_start : ℤ → Event
  tool_start : ℤ → String → String → Event
  text_delta : ℤ → String → Event
  json_delta : ℤ → String → Event
  block_stop : ℤ → Event
  -- the reason and the output tokens
  message_delta : String → ℤ → Event
  message_stop : Event
  ping : Event

abbrev pub event_name : Event → String
event_name (message_start id input) = "message_start"
event_name (text_start i) = "content_block_start"
event_name (tool_start i id name) = "content_block_start"
event_name (text_delta i s) = "content_block_delta"
event_name (json_delta i s) = "content_block_delta"
event_name (block_stop i) = "content_block_stop"
event_name (message_delta reason output) = "message_delta"
event_name message_stop = "message_stop"
event_name ping = "ping"

-- The other fields of an event, of the object in it, and of its usage.
pub record Others : Type 0 where
  pub outer : List (String × Json)
  pub inner : List (String × Json)
  pub usage : List (String × Json)

abbrev typed : String → ℤ → String → List (String × Json) → Others → Json
typed type i key value o =
    object_of
      (("type", str type) ∷ ("index", int i) ∷ (key, object_of (value ++ o.inner)) ∷ o.outer)

abbrev pub event_data : Event → Others → Json
event_data (message_start id input) o = object_of (
    ("type", str "message_start")
    ∷ (
      "message",
      object_of
          (("id", str id) ∷ ("usage", object_of (("input_tokens", int input) ∷ o.usage)) ∷ o.inner),
    )
    ∷ o.outer)
event_data (text_start i) o =
    typed "content_block_start" i "content_block" (("type", str "text") ∷ ("text", str "") ∷ []) o
event_data (tool_start i id name) o =
    typed "content_block_start" i "content_block"
      (("type", str "tool_use") ∷ ("id", str id) ∷ ("name", str name) ∷ ("input", obj end) ∷ []) o
event_data (text_delta i s) o =
    typed "content_block_delta" i "delta" (("type", str "text_delta") ∷ ("text", str s) ∷ []) o
event_data (json_delta i s) o =
    typed "content_block_delta" i "delta"
      (("type", str "input_json_delta") ∷ ("partial_json", str s) ∷ []) o
event_data (block_stop i) o =
    object_of (("type", str "content_block_stop") ∷ ("index", int i) ∷ o.outer)
event_data (message_delta reason output) o = object_of (
    ("type", str "message_delta")
    ∷ ("delta", object_of (("stop_reason", str reason) ∷ o.inner))
    ∷ ("usage", object_of (("output_tokens", int output) ∷ o.usage))
    ∷ o.outer)
event_data message_stop o = object_of (("type", str "message_stop") ∷ o.outer)
event_data ping o = object_of (("type", str "ping") ∷ o.outer)

-- An event with its other fields, the text of its data, and the time at which its lines arrive.
pub record Sent : Type 0 where
  pub event : Event
  pub others : Others
  pub body : String
  pub at : ℕ

-- A text behind a fixed one.
abbrev pub behind : String → String → String
behind String.[] t = t
behind (String.◌∷◌ c s) t = String.◌∷◌ c (behind s t)

abbrev pub arrived : ℕ → String → Arrived
arrived at line = record { line = line; at = at }

-- The three lines of an event.
abbrev pub lines_of : List Sent → List Arrived
lines_of [] = []
lines_of (sent ∷ rest) =
    arrived sent.at (behind "event: " (event_name sent.event))
    ∷ arrived sent.at (behind "data: " sent.body)
    ∷ arrived sent.at ""
    ∷ lines_of rest

-- The text of the data is JSON for the event.
abbrev pub IsFaithful : Python → Sent → Type 0
IsFaithful python sent =
    python.loads (strip_by is_blank (behind " " sent.body))
    ≡ some (event_data sent.event sent.others)

-- The message so far: its id, the tokens reported for it, and what its reader sees.
pub record Message : Type 0 where
  pub id : String
  pub prompt : ℤ
  pub completion : ℤ
  pub view : View

abbrev pub read_event : Event → Message → Message
read_event (message_start id input) m = record m { id = id; prompt = input }
read_event (text_start i) m = m
read_event (tool_start i id name) m =
    let v = m.view in
    record m {
      view = record v {
        calls = put_call i (record { id = id; name = name; arguments = "" }) v.calls;
      };
    }
read_event (text_delta i s) m =
    let v = m.view in record m { view = record v { text = concat v.text s } }
read_event (json_delta i s) m =
    let v = m.view in record m { view = record v { calls = extend_call i s v.calls } }
read_event (block_stop i) m = m
read_event (message_delta reason output) m =
    let v = m.view in
    record m {
      completion = output;
      view = record v {
        finish = some (finish_of (str reason));
        usage = some record {
          prompt_tokens = m.prompt;
          completion_tokens = output;
          total_tokens = m.prompt +ℤ output;
        };
      };
    }
read_event message_stop m = m
read_event ping m = m

abbrev pub read_events : List Sent → Message → Message
read_events [] m = m
read_events (sent ∷ rest) m = read_events rest (read_event sent.event m)

abbrev pub unsent : String → Message
unsent fresh = record {
  id = concat "chatcmpl-" fresh;
  prompt = pos 0;
  completion = pos 0;
  view = nothing;
}
