-- ===== src/Providers/Billing.antt =====
-- app/api/v1/completions.py: the usage that a stream is billed by is the one that its client reads.
use cortex_cloud_api.Prelude.{Option, none, some, List, [], ◌∷◌, ◌≡◌, refl, sym, ap, ◌∙◌}
use cortex_cloud_api.Completions.Streams.{reported}
use cortex_cloud_api.Providers.View.{
  View, nothing, read_choice, read_choices, read_chunk, read_chunks, last_of,
}
use cortex_cloud_api.Schemas.{ChatCompletionStreamResponse, ChatCompletionStreamChoice, UsageInfo}

read_choices-usage :
    (choices : List ChatCompletionStreamChoice) (v : View)
    → (read_choices choices v).usage ≡ v.usage
read_choices-usage [] v = refl
read_choices-usage (choice ∷ rest) v = read_choices-usage rest (read_choice choice v)

last_of-later :
    (later : Option UsageInfo) (c : ChatCompletionStreamResponse) (v : View)
    → last_of later (read_chunk c v).usage
      ≡ last_of (elim later [ some u ↦ some u | none ↦ c.usage ]) v.usage
last_of-later (some u) c v = refl
last_of-later none c v = ap (last_of c.usage) (read_choices-usage c.choices v)

-- The usage that a client reads last is the one that the wrapper bills by.
last_of-reported :
    (cs : List ChatCompletionStreamResponse) (v : View)
    → (read_chunks cs v).usage ≡ last_of (reported cs) v.usage
last_of-reported [] v = refl
last_of-reported (c ∷ rest) v =
    last_of-reported rest (read_chunk c v) ∙ last_of-later (reported rest) c v

last_of-none : (o : Option UsageInfo) → last_of o none ≡ o
last_of-none none = refl
last_of-none (some u) = refl

pub reported-read_chunks :
    (cs : List ChatCompletionStreamResponse) → reported cs ≡ (read_chunks cs nothing).usage
reported-read_chunks cs = sym (last_of-reported cs nothing ∙ last_of-none (reported cs))
