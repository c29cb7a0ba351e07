-- ===== src/Providers/Anthropic/Refinement.antt =====
-- app/providers/anthropic.py: a translated stream shows the client the message that Anthropic sent.
use cortex_cloud_api.Prelude.{
  ℕ, String, false, none, some, List, [], ◌∷◌, ◌≡◌, ◌⊎◌, refl, inl, inr, Bool-cases, All,
}
use cortex_cloud_api.Prelude.Int.{ℤ}
use cortex_cloud_api.Prelude.Text.{concat}
use cortex_cloud_api.Prelude.Strings.{strip-nonblank}
use cortex_cloud_api.Effects.{Result, ok}
use cortex_cloud_api.Providers.{Yielded, Python, yields_then}
use Prim.Native.Char.{char}
use text.Mathlib.TextLemmas.{append-nil}
use cortex_cloud_api.Json.{int, str}
use cortex_cloud_api.Json.Access.{eq_ℤ}
use cortex_cloud_api.Providers.View.{
  Call, Calls, View, put_call, extend_call, Shows, yields_then-Shows,
}
use cortex_cloud_api.Providers.Anthropic.Events.{
  Event, Others, message_start, text_start, tool_start, text_delta, json_delta, block_stop,
  message_delta, message_stop, ping, event_name, event_data, Message, read_event, read_events,
  lines_of, Sent, IsFaithful, arrived, behind,
}
use cortex_cloud_api.Providers.Anthropic.Stream.{
  Reading, ToolCall, ToolCalls, find_call, set_call, on_event, on_line, on_lines,
}

-- The generator's table of calls holds what the client has.
abbrev held : Call → ToolCall
held call = record { id = str call.id; name = str call.name; input_accumulated = call.arguments }

abbrev table : Calls → ToolCalls
table [] = []
table ((i, call) ∷ rest) = (int i, held call) ∷ table rest

abbrev reading : String → Message → Reading
reading event_type m = record {
  msg_id = str m.id;
  prompt_tokens = int m.prompt;
  completion_tokens = int m.completion;
  tool_calls_stream = table m.view.calls;
  event_type = event_type;
}

set_call-table :
    (i : ℤ) (call : Call) (calls : Calls)
    → set_call (int i) (held call) (table calls) ≡ table (put_call i call calls)
set_call-table i call [] = refl
set_call-table i call ((k, old) ∷ rest) = elim (Bool-cases (eq_ℤ k i)) [
  | inl e ↦ rw e refl
  | inr e ↦ rw (e, set_call-table i call rest) refl
]

abbrev longer : Call → String → Call
longer call piece = record call { arguments = concat call.arguments piece }

-- A call that the table does not hold grows nothing; the others are looked up and put back.
abbrev IsLookedUp : ℤ → String → Calls → Type 0
IsLookedUp i piece calls =
    ((find_call (int i) (table calls) ≡ none) × (extend_call i piece calls ≡ calls))
    ⊎ ((call : Call) × (find_call (int i) (table calls) ≡ some (held call))
        × (put_call i (longer call piece) calls ≡ extend_call i piece calls))

IsLookedUp-cons :
    (i : ℤ) (piece : String) (k : ℤ) (old : Call) (rest : Calls)
    → eq_ℤ k i ≡ false
    → IsLookedUp i piece rest
    → IsLookedUp i piece ((k, old) ∷ rest)
IsLookedUp-cons i piece k old rest e (inl (f, g)) = inl (rw e f, rw (e, g) refl)
IsLookedUp-cons i piece k old rest e (inr (call, f, g)) = inr (call, rw e f, rw (e, g) refl)

calls-IsLookedUp : (i : ℤ) (piece : String) (calls : Calls) → IsLookedUp i piece calls
calls-IsLookedUp i piece [] = inl (refl, refl)
calls-IsLookedUp i piece ((k, old) ∷ rest) = elim (Bool-cases (eq_ℤ k i)) [
  | inl e ↦ inr (old, rw e refl, rw e refl)
  | inr e ↦ IsLookedUp-cons i piece k old rest e (calls-IsLookedUp i piece rest)
]

abbrev Follows : String → View → Message → Yielded Reading → Type 0
Follows event_type v m y = Shows v m.view (ok (reading event_type m)) y

json_delta-Follows :
    (model : String) (now : ℕ) (event_type : String) (m : Message) (i : ℤ) (piece : String)
    (o : Others)
    → IsLookedUp i piece m.view.calls
    → Follows event_type m.view (read_event (json_delta i piece) m) (
        on_event model now "content_block_delta"
          (event_data (json_delta i piece) o)
          (reading event_type m))
unfolding on_event
json_delta-Follows model now et m i piece o (inl (f, g)) = (rw (f, g) refl, rw (f, g) refl)
json_delta-Follows model now et m i piece o (inr (call, f, g)) = (
  rw f (rw (set_call-table i (longer call piece) m.view.calls, g) refl),
  rw f (rw append-nil refl),
)

on_event-Follows :
    (model : String) (now : ℕ) (event_type : String) (m : Message) (e : Event) (o : Others)
    → Follows event_type m.view
        (read_event e m)
        (on_event model now (event_name e) (event_data e o) (reading event_type m))
unfolding on_event
on_event-Follows model now et m (message_start id input) o = (refl, rw append-nil refl)
on_event-Follows model now et m (text_start i) o = (refl, refl)
on_event-Follows model now et m (tool_start i id name) o = (
  rw (set_call-table i (record { id = id; name = name; arguments = "" }) m.view.calls) refl,
  rw append-nil refl,
)
on_event-Follows model now et m (text_delta i s) o = (refl, refl)
on_event-Follows model now et m (json_delta i s) o =
    json_delta-Follows model now et m i s o (calls-IsLookedUp i s m.view.calls)
on_event-Follows model now et m (block_stop i) o = (refl, refl)
on_event-Follows model now et m (message_delta reason output) o = (refl, rw append-nil refl)
on_event-Follows model now et m message_stop o = (refl, refl)
on_event-Follows model now et m ping o = (refl, refl)

on_line-name :
    (model : String) (python : Python) (now : ℕ) (e : Event) (s : Reading)
    → on_line model python (arrived now (behind "event: " (event_name e))) s
      ≡ ([], ok (record s { event_type = event_name e }))
unfolding on_line
on_line-name model python now (message_start id input) s = refl
on_line-name model python now (text_start i) s = refl
on_line-name model python now (tool_start i id name) s = refl
on_line-name model python now (text_delta i t) s = refl
on_line-name model python now (json_delta i t) s = refl
on_line-name model python now (block_stop i) s = refl
on_line-name model python now (message_delta reason output) s = refl
on_line-name model python now message_stop s = refl
on_line-name model python now ping s = refl

on_line-data :
    (model : String) (python : Python) (sent : Sent) (s : Reading)
    → IsFaithful python sent
    → on_line model python (arrived sent.at (behind "data: " sent.body)) s
      ≡ on_event model sent.at s.event_type (event_data sent.event sent.others) s
unfolding on_line
on_line-data model python sent s h =
    rw (strip-nonblank (char b'd' tt) (behind "ata: " sent.body) refl) (rw h refl)

on_lines-sent :
    (model : String) (python : Python) (sent : Sent) (rest : List Sent) (ending : Result (Unit {0}))
    (s : Reading)
    → IsFaithful python sent
    → on_lines model python (lines_of (sent ∷ rest)) ending s
      ≡ yields_then
          (on_event model sent.at
            (event_name sent.event)
            (event_data sent.event sent.others)
            (record s { event_type = event_name sent.event }))
          (on_lines model python (lines_of rest) ending)
unfolding on_line
on_lines-sent model python sent rest ending s h =
    rw (on_line-name model python sent.at sent.event s)
      (rw (on_line-data model python sent (record s { event_type = event_name sent.event }) h) refl)

pub on_lines-Shows :
    (model : String) (python : Python) (sent : List Sent) (ending : Result (Unit {0}))
    (event_type : String) (m : Message)
    → All (IsFaithful python) sent
    → Shows m.view
        (read_events sent m).view
        ending
        (on_lines model python (lines_of sent) ending (reading event_type m))
on_lines-Shows model python [] ending et m h = (refl, refl)
on_lines-Shows model python (sent ∷ rest) ending et m (h, hs) =
    let next = read_event sent.event m in
    rw (on_lines-sent model python sent rest ending (reading et m) h) (
      yields_then-Shows
        (on_event model sent.at (event_name sent.event) (event_data sent.event sent.others)
          (reading (event_name sent.event) m))
        (on_lines model python (lines_of rest) ending) m.view next.view
        (read_events (sent ∷ rest) m).view (reading (event_name sent.event) next) ending
        (on_event-Follows model sent.at (event_name sent.event) m sent.event sent.others)
        (on_lines-Shows model python rest ending (event_name sent.event) next hs))
