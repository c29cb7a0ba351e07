-- ===== src/Providers/OpenAi/Alias.antt =====
-- app/providers/openai.py: the name of the model in the chunks of a stream.
use cortex_cloud_api.Prelude.{
  String, str_eq, eq_refl, Option, none, some, List, [], ◌∷◌, ◌≡◌, refl, ◌⊎◌, inl, inr, All,
  All-append, Bool-cases, Option-cases, any,
}
use cortex_cloud_api.Prelude.Text.{codes, concat, contains}
use cortex_cloud_api.Effects.{Detail, Result, ok, raised}
use cortex_cloud_api.Effects.Results.{◌>>=◌, Gives, bind-Gives, any-Gives}
use cortex_cloud_api.Json.{
  Json, null, boolean, int, float, str, arr, obj, Fields, end, field, lookup_field, elems,
}
use cortex_cloud_api.Json.Access.{set_field, is_str}
use cortex_cloud_api.Providers.{Python, Arrived, HttpStream, opened}
use cortex_cloud_api.Providers.OpenAi.{
  Pydantic, OpenAiData, Said, nothing_said, said_done, said, said_by, loaded, patched, validated,
  read_chunk, as_list, base_url, streaming, chat_completion_stream,
}
use cortex_cloud_api.Providers.OpenAi.Stream.{
  before_done, all_chunks, chunks_of, chat_completion_stream_lem,
}
use cortex_cloud_api.Routing.{Provider, ProviderContext}
use cortex_cloud_api.Schemas.{ChatCompletionRequest, ChatCompletionStreamResponse}

-- pydantic takes a chunk from a dict only, which has to have the text `model`, and keeps that.
abbrev pub AsksModel : Pydantic → Type 0
AsksModel pydantic =
    (value : Json) (c : ChatCompletionStreamResponse)
    → pydantic.as_stream_response value ≡ some c
    → (fs : Fields) × (value ≡ obj fs) × (lookup_field "model" fs ≡ some (str c.model))

lookup-set_field :
    (key : String) (value : Json) (fs : Fields)
    → lookup_field key (set_field key value fs) ≡ some value
lookup-set_field key value end = rw (eq_refl key) refl
lookup-set_field key value (field k v fs) = elim (Bool-cases (str_eq k key)) [
  | inl e ↦ rw e (rw e refl)
  | inr e ↦ rw e (rw e (lookup-set_field key value fs))
]

-- A dict whose model, if it has one, is the alias.
abbrev IsNamed : String → Json → Type 0
IsNamed model value =
    (fs : Fields)
    → value ≡ obj fs
    → (lookup_field "model" fs ≡ none) ⊎ (lookup_field "model" fs ≡ some (str model))

patched_dict-IsNamed :
    (model : String) (fs : Fields) → Gives (IsNamed model) (patched model (obj fs))
patched_dict-IsNamed model fs = elim (Option-cases (lookup_field "model" fs)) [
  | inl e ↦
      rw e (λ (gs : Fields) (f : obj fs ≡ obj gs). let same : fs ≡ gs = cc in inl (rw (← same) e))
  | inr (v, e) ↦ rw e (λ (gs : Fields) (f : obj (set_field "model" (str model) fs) ≡ obj gs).
      let same : set_field "model" (str model) fs ≡ gs = cc in
      inr (rw (← same) (lookup-set_field "model" (str model) fs)))
]

patched-IsNamed : (model : String) (value : Json) → Gives (IsNamed model) (patched model value)
patched-IsNamed model (obj fs) = patched_dict-IsNamed model fs
patched-IsNamed model (str s) = elim (Bool-cases (contains (codes s) (codes "model"))) [
  | inl e ↦ rw e tt
  | inr e ↦ rw e (λ (gs : Fields) (f : str s ≡ obj gs). cc)
]
patched-IsNamed model (arr es) = elim (Bool-cases (any (is_str "model") (elems es))) [
  | inl e ↦ rw e tt
  | inr e ↦ rw e (λ (gs : Fields) (f : arr es ≡ obj gs). cc)
]
patched-IsNamed model null = tt
patched-IsNamed model (boolean b) = tt
patched-IsNamed model (int n) = tt
patched-IsNamed model (float s) = tt

abbrev HasAlias : String → ChatCompletionStreamResponse → Type 0
HasAlias model c = c.model ≡ model

module _ (python : Python) (pydantic : Pydantic) (asks : AsksModel pydantic) (model : String) where
  validated-HasAlias :
      (value : Json)
      → IsNamed model value
      → Gives (HasAlias model) (validated pydantic.as_stream_response value)
  validated-HasAlias value h = elim (Option-cases (pydantic.as_stream_response value)) [
    | inl e ↦ rw (e, Gives) tt
    | inr (c, e) ↦ rw (e, Gives) (alias_of c (asks value c e))
  ]
    where
      alias_of :
          (c : ChatCompletionStreamResponse)
          → (fs : Fields) × (value ≡ obj fs) × (lookup_field "model" fs ≡ some (str c.model))
          → HasAlias model c
      alias_of c (fs, e, f) = elim (h fs e) [ inl g ↦ cc (f, g) | inr g ↦ cc (f, g) ]

  read_chunk-HasAlias :
      (content : String) → Gives (HasAlias model) (read_chunk python pydantic model content)
  read_chunk-HasAlias content =
      bind-Gives (IsNamed model) (HasAlias model) (loaded (python.loads content) >>= patched model)
        (validated pydantic.as_stream_response)
        (any-Gives (IsNamed model) (loaded (python.loads content)) (patched model)
          (patched-IsNamed model))
        validated-HasAlias

  as_list-HasAlias :
      (r : Result ChatCompletionStreamResponse)
      → Gives (HasAlias model) r
      → All (HasAlias model) (as_list r)
  as_list-HasAlias (ok c) h = (h, tt)
  as_list-HasAlias (raised e) h = tt

  chunks_of-HasAlias : (s : Said) → All (HasAlias model) (chunks_of python pydantic model s)
  chunks_of-HasAlias nothing_said = tt
  chunks_of-HasAlias said_done = tt
  chunks_of-HasAlias (said content) =
      as_list-HasAlias (read_chunk python pydantic model content) (read_chunk-HasAlias content)

  all_chunks-HasAlias :
      (lines : List Arrived) → All (HasAlias model) (all_chunks python pydantic model lines)
  all_chunks-HasAlias [] = tt
  all_chunks-HasAlias (arrived ∷ rest) =
      All-append (HasAlias model) (chunks_of python pydantic model (said_by arrived.line))
        (all_chunks python pydantic model rest) (chunks_of-HasAlias (said_by arrived.line))
        (all_chunks-HasAlias rest)

-- If pydantic asks for the model of a chunk and keeps it, every chunk of a stream that is answered
-- with status 200 names the model as the client asked for it: the name at the provider is not shown.
pub chat_completion_stream-HasAlias :
    (p : Provider) (python : Python) (pydantic : Pydantic)
    (send : String → ProviderContext → OpenAiData ChatCompletionRequest → HttpStream)
    (request : ChatCompletionRequest) (ctx : ProviderContext) (body : String) (lines : List Arrived)
    (cut : Option Detail)
    → AsksModel pydantic
    → send (concat (base_url p) "/chat/completions") ctx (streaming request ctx)
      ≡ opened 200 body lines cut
    → All
        (λ (c : ChatCompletionStreamResponse). c.model ≡ request.model)
        (chat_completion_stream p python pydantic send request ctx).0
chat_completion_stream-HasAlias p python pydantic send request ctx body lines cut asks h =
    rw (chat_completion_stream_lem p python pydantic send request ctx body lines cut h)
      (all_chunks-HasAlias python pydantic asks request.model (before_done lines).0)
