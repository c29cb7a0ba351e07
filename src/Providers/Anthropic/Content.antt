-- ===== src/Providers/Anthropic/Content.antt =====
-- app/providers/anthropic.py: `_convert_content_to_anthropic`.
use cortex_cloud_api.Prelude.{String, Option, none, some, List, [], ◌∷◌, if◌then◌else◌}
use cortex_cloud_api.Effects.{Result, ok, raised}
use cortex_cloud_api.Effects.Results.{◌>>=◌, map_result, traverse}
use cortex_cloud_api.Json.{Json, str, obj, end, object_of}
use cortex_cloud_api.Json.Access.{get, get_or, is_str, attribute_error}
use cortex_cloud_api.Providers.Images.{data_url, concat_items}
use cortex_cloud_api.Schemas.{Content, parts}

abbrev pub text_block : Json → Json
text_block value = object_of (("type", str "text") ∷ ("text", value) ∷ [])

abbrev pub image_block : String × String → Json
image_block (media_type, base64_data) = object_of (
    ("type", str "image")
    ∷ (
      "source",
      object_of (
          ("type", str "base64") ∷ ("media_type", str media_type) ∷ ("data", str base64_data) ∷ []),
    )
    ∷ [])

abbrev pub image_blocks : Option (String × String) → List Json
image_blocks none = []
image_blocks (some image) = image_block image ∷ []

-- `img_url.startswith` on what the item has for a url.
abbrev pub image_of : Json → Result (List Json)
image_of (str url) = ok (image_blocks (data_url url))
image_of _ = raised attribute_error

abbrev text_item : Json → Result (List Json)
text_item item = get item "text" >>= λ value. ok (text_block value ∷ [])

abbrev image_item : Json → Result (List Json)
image_item item = get_or item "image_url" (obj end) >>= λ image.
    get_or image "url" (str "") >>= λ url. image_of url

abbrev pub typed_item : Json → Json → Result (List Json)
typed_item type item =
    if is_str "text" type
    then text_item item
    else if is_str "image_url" type
    then image_item item
    else ok []

abbrev pub convert_item : Json → Result (List Json)
convert_item (obj item) = get (obj item) "type" >>= λ type. typed_item type (obj item)
convert_item item = ok (item ∷ [])

abbrev pub convert_content_to_anthropic : Content → Result Content
convert_content_to_anthropic (parts items) =
    map_result (λ lists. parts (concat_items lists)) (traverse convert_item items)
convert_content_to_anthropic content = ok content
