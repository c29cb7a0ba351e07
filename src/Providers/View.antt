-- ===== src/Providers/View.antt =====
-- What a client of the OpenAI API makes of the chunks of a stream: it appends the texts, and joins
-- the pieces of a tool call by their index. This is the abstract message of the refinements.
use cortex_cloud_api.Prelude.{
  String, Option, none, some, List, [], ◌∷◌, ◌++◌, ◌≡◌, refl, ◌∙◌, if◌then◌else◌,
}
use cortex_cloud_api.Prelude.Int.{ℤ}
use cortex_cloud_api.Effects.{Result, ok, raised}
use cortex_cloud_api.Providers.{Yielded, yields_then}
use cortex_cloud_api.Prelude.Text.{concat}
use cortex_cloud_api.Json.{Json, int, str, obj, Fields, lookup_field}
use cortex_cloud_api.Json.Access.{eq_ℤ}
use cortex_cloud_api.Schemas.{
  UsageInfo, FinishReason, ChatCompletionStreamChoice, ChatCompletionStreamResponse,
}

pub record Call : Type 0 where
  pub id : String
  pub name : String
  pub arguments : String

abbrev pub Calls : Type 0
Calls = List (ℤ × Call)

pub record View : Type 0 where
  pub text : String
  pub calls : Calls
  pub finish : Option FinishReason
  pub usage : Option UsageInfo

abbrev pub nothing : View
nothing = record { text = ""; calls = []; finish = none; usage = none }

-- A call that begins at an index, and a piece of the arguments of the call there.
abbrev pub put_call : ℤ → Call → Calls → Calls
put_call i call [] = (i, call) ∷ []
put_call i call ((k, old) ∷ rest) =
    let later = put_call i call rest in if eq_ℤ k i then (k, call) ∷ rest else (k, old) ∷ later

abbrev pub extend_call : ℤ → String → Calls → Calls
extend_call i piece [] = []
extend_call i piece ((k, call) ∷ rest) =
    let later = extend_call i piece rest in
    if eq_ℤ k i
    then (k, record call { arguments = concat call.arguments piece }) ∷ rest
    else (k, call) ∷ later

abbrev as_str : Option Json → String
as_str (some (str s)) = s
as_str _ = ""

abbrev function_field : String → Option Json → String
function_field key (some (obj fs)) = as_str (lookup_field key fs)
function_field key _ = ""

abbrev arguments_of : Fields → String
arguments_of fs = function_field "arguments" (lookup_field "function" fs)

abbrev opened_call : String → Fields → Call
opened_call id fs = record {
  id = id;
  name = function_field "name" (lookup_field "function" fs);
  arguments = arguments_of fs;
}

abbrev join_at : Option Json → Option Json → Fields → Calls → Calls
join_at (some (int i)) (some (str id)) fs calls = put_call i (opened_call id fs) calls
join_at (some (int i)) _ fs calls = extend_call i (arguments_of fs) calls
join_at _ _ fs calls = calls

abbrev join_call : Json → Calls → Calls
join_call (obj fs) calls = join_at (lookup_field "index" fs) (lookup_field "id" fs) fs calls
join_call _ calls = calls

abbrev join_calls : List Json → Calls → Calls
join_calls [] calls = calls
join_calls (call ∷ rest) calls = join_calls rest (join_call call calls)

abbrev calls_in : Option (List Json) → List Json
calls_in none = []
calls_in (some calls) = calls

abbrev text_in : Option String → String
text_in none = ""
text_in (some s) = s

abbrev pub last_of : {A : Type 0} → Option A → Option A → Option A
last_of none old = old
last_of (some a) old = some a

abbrev pub read_choice : ChatCompletionStreamChoice → View → View
read_choice choice v = record {
  text = concat v.text (text_in choice.delta.content);
  calls = join_calls (calls_in choice.delta.tool_calls) v.calls;
  finish = last_of choice.finish_reason v.finish;
  usage = v.usage;
}

abbrev pub read_choices : List ChatCompletionStreamChoice → View → View
read_choices [] v = v
read_choices (choice ∷ rest) v = read_choices rest (read_choice choice v)

abbrev pub read_chunk : ChatCompletionStreamResponse → View → View
read_chunk c v =
    let read = read_choices c.choices v in record read { usage = last_of c.usage read.usage }

abbrev pub read_chunks : List ChatCompletionStreamResponse → View → View
read_chunks [] v = v
read_chunks (c ∷ rest) v = read_chunks rest (read_chunk c v)

read_chunks-append :
    (cs ds : List ChatCompletionStreamResponse) (v : View)
    → read_chunks (cs ++ ds) v ≡ read_chunks ds (read_chunks cs v)
read_chunks-append [] ds v = refl
read_chunks-append (c ∷ cs) ds v = read_chunks-append cs ds (read_chunk c v)

-- A generator ends with `r`, and a client that has read `v` has then read `w`.
abbrev pub Shows : {T : Type 0} → View → View → Result T → Yielded T → Type 0
Shows v w r y = (y.1 ≡ r) × (read_chunks y.0 v ≡ w)

pub yields_then-Shows :
    {S T : Type 0} (y : Yielded S) (next : S → Yielded T) (v u w : View) (s : S) (r : Result T)
    → Shows v u (ok s) y
    → Shows u w r (next s)
    → Shows v w r (yields_then y next)
yields_then-Shows (chunks, ok t) next v u w s r (e, f) (g, h) =
    let same : t ≡ s = cc in rw same (g, read_chunks-append chunks (next s).0 v ∙ rw f h)
yields_then-Shows (chunks, raised x) next v u w s r (e, f) h = cc
