-- ===== src/Providers/Gemini/Embeddings.antt =====
-- app/providers/gemini.py: `embeddings`.
use cortex_cloud_api.Prelude.{ℕ, suc, String, Bool, true, false, ◌&&◌, List, [], ◌∷◌, if◌then◌else◌}
use cortex_cloud_api.Prelude.Int.{pos}
use cortex_cloud_api.Effects.{message, Exn, http, other, Result, ok, raised}
use cortex_cloud_api.Effects.Results.{◌>>=◌, map_result}
use cortex_cloud_api.Json.{Json, int, float, arr, obj, nil, end, elems}
use cortex_cloud_api.Json.Access.{get_or, items_of, has_key, item_at, validation_error}
use cortex_cloud_api.Providers.{HttpReply, answer_with}
use cortex_cloud_api.Routing.{ProviderContext}
use cortex_cloud_api.Schemas.{
  EmbeddingsInput, one_text, texts, tokens, token_lists, EmbeddingsRequest, EmbeddingObject,
  EmbeddingsResponse,
}

-- The body: the texts to embed, each sent as `{"parts": [{"text": ...}]}`, for one of the model's
-- two methods.
pub data EmbedData : Type 0 where
  embed_content : String → EmbedData
  batch_embed_contents : List String → EmbedData

abbrev unsupported : Exn
unsupported = http 400 (message "Gemini embedding only supports string or list of string inputs.")

abbrev pub contents_of : EmbeddingsInput → Result (List String)
contents_of (one_text s) = ok (s ∷ [])
contents_of (texts items) = ok items
contents_of (tokens []) = ok []
contents_of (tokens (n ∷ rest)) = raised unsupported
contents_of (token_lists []) = ok []
contents_of (token_lists (ns ∷ rest)) = raised unsupported

-- A batch if there are several; `contents[0]` raises if there are none.
abbrev pub embed_data : List String → Result EmbedData
embed_data [] = raised (other (message "IndexError"))
embed_data (s ∷ []) = ok (embed_content s)
embed_data (s ∷ t ∷ rest) = ok (batch_embed_contents (s ∷ t ∷ rest))

abbrev is_number : Json → Bool
is_number (int n) = true
is_number (float s) = true
is_number _ = false

abbrev are_numbers : List Json → Bool
are_numbers [] = true
are_numbers (j ∷ rest) = is_number j && are_numbers rest

-- `embedding: List[float]`
abbrev pub as_vector : Json → Result (List Json)
as_vector (arr es) = if are_numbers (elems es) then ok (elems es) else raised validation_error
as_vector _ = raised validation_error

abbrev pub embedding_object : ℕ → Json → Result EmbeddingObject
embedding_object index emb = get_or emb "values" (arr nil) >>= λ values.
    map_result (λ vector. record { index = index; embedding = vector }) (as_vector values)

-- `for idx, emb in enumerate(...)`
abbrev pub enumerate_from : ℕ → List Json → Result (List EmbeddingObject)
enumerate_from index [] = ok []
enumerate_from index (emb ∷ rest) = embedding_object index emb >>= λ object.
    map_result (λ objects. object ∷ objects) (enumerate_from (suc index) rest)

abbrev batch : Json → Result (List EmbeddingObject)
batch reply = item_at "embeddings" reply >>= items_of >>= enumerate_from 0

abbrev single : Json → Result (List EmbeddingObject)
single reply = get_or reply "embedding" (obj end) >>= λ emb.
    map_result (λ object. object ∷ []) (embedding_object 0 emb)

abbrev pub read_embeddings : Json → Result (List EmbeddingObject)
read_embeddings reply =
    has_key "embeddings" reply >>= λ has_batch. (if has_batch then batch reply else single reply)

-- `post` is the upstream: what it replies to the texts.
unfoldable pub embeddings :
    (ProviderContext → EmbedData → HttpReply)
    → EmbeddingsRequest
    → ProviderContext
    → Result EmbeddingsResponse
embeddings post request ctx = contents_of request.input >>= embed_data >>= λ sent.
    answer_with "Failed to connect to Gemini: " "Gemini embedding error: "
      (λ reply.
        map_result
          (λ objects. record {
            items = objects;
            model = request.model;
            usage = record {
              prompt_tokens = pos 0;
              completion_tokens = pos 0;
              total_tokens = pos 0;
            };
          })
          (read_embeddings reply))
      (post ctx sent)
