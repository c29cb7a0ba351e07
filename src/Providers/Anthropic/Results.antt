-- ===== src/Providers/Anthropic/Results.antt =====
-- app/providers/anthropic.py: the tool results of a conversation, in the messages that are sent.
use mathlib.Core.List.{append-nil, append_assoc}
use cortex_cloud_api.Prelude.{
  String, Bool, true, false, Option, none, some, List, [], ◌∷◌, ◌++◌, ◌≡◌, refl, ap, ◌∙◌, sym,
  select, select-append, inl, inr, Bool-cases,
}
use cortex_cloud_api.Effects.{Result, ok, raised}
use cortex_cloud_api.Effects.Results.{traverse, Gives, bind-Gives, any-Gives, map-Gives, Gives-ok}
use cortex_cloud_api.Json.{Json, null, boolean, int, float, str, arr, obj, end, lookup_field}
use cortex_cloud_api.Json.Access.{get, get_or, is_str}
use cortex_cloud_api.Providers.{Python}
use cortex_cloud_api.Providers.Images.{concat_items, data_url}
use cortex_cloud_api.Providers.Anthropic.Content.{
  convert_item, convert_content_to_anthropic, typed_item, image_of, image_blocks,
}
use cortex_cloud_api.Providers.Anthropic.Request.{
  AnthropicMessage, from_user, from_assistant, AnthropicData, Draft, tool_result, add_tool_result,
  content_blocks, by_role, convert_messages, append_message, empty_draft, translate_request,
}
use cortex_cloud_api.Providers.Anthropic.Tools.{tools_and_choice}
use cortex_cloud_api.Schemas.{
  Role, system, user, assistant, tool, Content, absent, text, parts, ChatCompletionMessage,
  ChatCompletionRequest,
}

abbrev type_of : Option Json → Bool
type_of (some value) = is_str "tool_result" value
type_of none = false

abbrev is_tool_result : Json → Bool
is_tool_result (obj fs) = type_of (lookup_field "type" fs)
is_tool_result _ = false

-- The tool results that the user's messages hold, in order.
abbrev results_of : AnthropicMessage → List Json
results_of (from_user (parts blocks)) = select is_tool_result blocks
results_of _ = []

abbrev pub results_in : List AnthropicMessage → List Json
results_in [] = []
results_in (m ∷ rest) = results_of m ++ results_in rest

-- The results that the client gives, in order.
abbrev given_result : Role → ChatCompletionMessage → List Json
given_result tool msg = tool_result msg ∷ []
given_result _ msg = []

abbrev pub given_results : List ChatCompletionMessage → List Json
given_results [] = []
given_results (msg ∷ rest) = given_result msg.role msg ++ given_results rest

results_in-append :
    (ms ns : List AnthropicMessage) → results_in (ms ++ ns) ≡ results_in ms ++ results_in ns
results_in-append [] ns = refl
results_in-append (m ∷ ms) ns = rw (results_in-append ms ns, append_assoc) refl

results_in-add_tool_result :
    (block : Json) (ms : List AnthropicMessage)
    → is_tool_result block ≡ true
    → results_in (add_tool_result block ms) ≡ results_in ms ++ block ∷ []
results_in-add_tool_result block [] h = rw h refl
results_in-add_tool_result block (from_user (parts blocks) ∷ []) h =
    rw (select-append is_tool_result blocks (block ∷ []), h, append-nil, append-nil) refl
results_in-add_tool_result block (from_user absent ∷ []) h = rw h refl
results_in-add_tool_result block (from_user (text s) ∷ []) h = rw h refl
results_in-add_tool_result block (from_assistant blocks ∷ []) h = rw h refl
results_in-add_tool_result block (m ∷ n ∷ rest) h =
    rw (results_in-add_tool_result block (n ∷ rest) h, ← append_assoc) refl

-- No part of a content becomes a tool result.
abbrev HasNone : List Json → Type 0
HasNone blocks = select is_tool_result blocks ≡ []

image_of-HasNone : (url : Json) → Gives HasNone (image_of url)
image_of-HasNone (str url) = elim (data_url url) as (λ image. HasNone (image_blocks image)) [
  | none ↦ refl
  | some image ↦ refl
]
image_of-HasNone null = tt
image_of-HasNone (boolean b) = tt
image_of-HasNone (int n) = tt
image_of-HasNone (float s) = tt
image_of-HasNone (arr es) = tt
image_of-HasNone (obj fs) = tt

typed_item-HasNone : (type item : Json) → Gives HasNone (typed_item type item)
typed_item-HasNone type item = elim (Bool-cases (is_str "text" type)) [
  | inl e ↦ rw e (any-Gives HasNone (get item "text") _ (λ value. refl))
  | inr e ↦ elim (Bool-cases (is_str "image_url" type)) [
    | inl f ↦
        rw (e, f)
          (any-Gives HasNone (get_or item "image_url" (obj end)) _
            (λ image. any-Gives HasNone (get_or image "url" (str "")) image_of image_of-HasNone))
    | inr f ↦ rw (e, f) refl
  ]
]

convert_item-HasNone : (item : Json) → Gives HasNone (convert_item item)
convert_item-HasNone (obj fs) =
    any-Gives HasNone (get (obj fs) "type") _ (λ type. typed_item-HasNone type (obj fs))
convert_item-HasNone (str s) = refl
convert_item-HasNone null = refl
convert_item-HasNone (boolean b) = refl
convert_item-HasNone (int n) = refl
convert_item-HasNone (float s) = refl
convert_item-HasNone (arr es) = refl

traverse-HasNone :
    (items : List Json)
    → Gives (λ lists. HasNone (concat_items lists)) (traverse convert_item items)
traverse-HasNone [] = refl
traverse-HasNone (item ∷ rest) =
    bind-Gives HasNone (λ lists. HasNone (concat_items lists)) (convert_item item) _
      (convert_item-HasNone item)
      (λ (blocks : List Json) (h : HasNone blocks).
        map-Gives (λ lists. HasNone (concat_items lists)) (λ lists. HasNone (concat_items lists))
          (λ lists. blocks ∷ lists) (traverse convert_item rest) (traverse-HasNone rest)
          (λ (lists : List (List Json)) (hs : HasNone (concat_items lists)).
            rw (select-append is_tool_result blocks (concat_items lists), h, hs) refl))

-- A message of the user's or of the assistant's adds none.
results_in-append_message :
    (draft : Draft) (m : AnthropicMessage)
    → results_of m ≡ []
    → results_in (append_message draft m).sent ≡ results_in draft.sent ++ []
results_in-append_message draft m h = rw (results_in-append draft.sent (m ∷ [])) (rw h refl)

abbrev results_of_user : Content → List Json
results_of_user content = results_of (from_user content)

content-HasNone :
    (content : Content) → Gives (λ c. results_of_user c ≡ []) (convert_content_to_anthropic content)
content-HasNone absent = refl
content-HasNone (text s) = refl
content-HasNone (parts items) =
    map-Gives (λ lists. HasNone (concat_items lists)) (λ c. results_of_user c ≡ [])
      (λ lists. parts (concat_items lists)) (traverse convert_item items) (traverse-HasNone items)
      (λ (lists : List (List Json)) (h : HasNone (concat_items lists)). h)

anything : {A : Type 0} (m : Result A) → Gives (λ a. Unit) m
anything (ok a) = tt
anything (raised e) = tt

-- A message adds the result that it gives, if any.
abbrev Adds : Draft → List Json → Draft → Type 0
Adds old given new = results_in new.sent ≡ results_in old.sent ++ given

by_role-Adds :
    (python : Python) (role : Role) (msg : ChatCompletionMessage) (draft : Draft)
    → Gives (Adds draft (given_result role msg)) (by_role python role msg draft)
by_role-Adds python system msg draft = sym (append-nil (results_in draft.sent))
by_role-Adds python user msg draft =
    map-Gives (λ c. results_of_user c ≡ []) (Adds draft [])
      (λ content. append_message draft (from_user content))
      (convert_content_to_anthropic msg.content) (content-HasNone msg.content)
      (λ (c : Content) (h : results_of_user c ≡ []).
        results_in-append_message draft (from_user c) h)
by_role-Adds python assistant msg draft =
    map-Gives (λ blocks. Unit {0}) (Adds draft [])
      (λ blocks. append_message draft (from_assistant blocks)) (content_blocks python msg)
      (anything (content_blocks python msg))
      (λ (blocks : List Json) (h : Unit {0}).
        results_in-append_message draft (from_assistant blocks) refl)
by_role-Adds python tool msg draft = results_in-add_tool_result (tool_result msg) draft.sent refl

Adds-trans :
    (draft next : Draft) (given later : List Json) (r : Result Draft)
    → Adds draft given next
    → Gives (Adds next later) r
    → Gives (Adds draft (given ++ later)) r
Adds-trans draft next given later (ok last) h k =
    k ∙ ap (λ t. t ++ later) h ∙ append_assoc (results_in draft.sent) given later
Adds-trans draft next given later (raised e) h k = tt

convert_messages-Adds :
    (python : Python) (msgs : List ChatCompletionMessage) (draft : Draft)
    → Gives (Adds draft (given_results msgs)) (convert_messages python msgs draft)
convert_messages-Adds python [] draft = sym (append-nil (results_in draft.sent))
convert_messages-Adds python (msg ∷ rest) draft =
    bind-Gives (Adds draft (given_result msg.role msg)) (Adds draft (given_results (msg ∷ rest)))
      (by_role python msg.role msg draft) (convert_messages python rest)
      (by_role-Adds python msg.role msg draft)
      (λ (next : Draft) (h : Adds draft (given_result msg.role msg) next).
        Adds-trans draft next (given_result msg.role msg) (given_results rest)
          (convert_messages python rest next) h (convert_messages-Adds python rest next))

abbrev IsComplete : ChatCompletionRequest → AnthropicData → Type 0
IsComplete request sent = results_in sent.messages ≡ given_results request.messages

translate_request-IsComplete :
    (python : Python) (request : ChatCompletionRequest) (provider_model : String)
    → Gives (IsComplete request) (translate_request python request provider_model)
unfolding translate_request
translate_request-IsComplete python request provider_model =
    bind-Gives (Adds empty_draft (given_results request.messages)) (IsComplete request)
      (convert_messages python request.messages empty_draft) _
      (convert_messages-Adds python request.messages empty_draft)
      (λ (draft : Draft) (h : Adds empty_draft (given_results request.messages) draft).
        any-Gives (IsComplete request) (tools_and_choice request.tools request.tool_choice) _
          (λ chosen. h))

-- The tool results of a conversation are sent to Anthropic all, once each and in their order; and
-- nothing that a user's content holds is sent as a tool result.
pub results_in-translate_request :
    (python : Python) (request : ChatCompletionRequest) (provider_model : String)
    (sent : AnthropicData)
    → translate_request python request provider_model ≡ ok sent
    → results_in sent.messages ≡ given_results request.messages
unfolding translate_request
results_in-translate_request python request provider_model sent e =
    Gives-ok (IsComplete request) (translate_request python request provider_model)
      (translate_request-IsComplete python request provider_model) e
