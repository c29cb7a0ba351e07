-- ===== src/Edge.antt =====
-- What the middlewares of app/main.py share: a request, a response, and the state around a request:
-- the database, the Redis server, and the facilitator's calls and handler runs so far.
pub mod Redis
use cortex_cloud_api.Prelude.{ℕ, String, Option, List}
use cortex_cloud_api.Json.{Json}
use cortex_cloud_api.Effects.{Result, Exec}
use cortex_cloud_api.Database.{World}
use Redis.{RedisStore}

-- The parts of a request that the middlewares read: a header is `none` when it is missing.
pub record Request : Type 0 where
  pub method : String
  pub path : String
  pub client_ip : Option String
  pub authorization : Option String
  pub x_payment : Option String
  pub payment_signature : Option String
  pub x_correlation_id : Option String

-- `payment_required` and `payment_response` are the JSON values that the headers PAYMENT-REQUIRED
-- and X-PAYMENT-RESPONSE carry in base64.
pub record Response : Type 0 where
  pub status_code : ℕ
  pub content : Json
  pub payment_required : Option Json
  pub payment_response : Option Json
  pub correlation_id : Option String

pub data Endpoint : Type 0 where
  verify settle : Endpoint

-- What the gateway has done on behalf of a request.
pub data Event : Type 0 where
  -- a POST to the facilitator, with its JSON body and its headers
  posted : Endpoint → Json → List (String × String) → Event
  -- the request went on to the next middleware
  forwarded : Request → Event

pub record Edge : Type 0 where
  pub world : World
  pub redis : RedisStore
  pub events : List Event

-- `request.client.host if request.client else "127.0.0.1"`
abbrev pub client_host : Request → String
client_host request = elim request.client_ip [ Option.none ↦ "127.0.0.1" | Option.some ip ↦ ip ]

-- A statement of the session.
abbrev pub put_world : {A : Type 0} → Edge → Result A × World → Result A × Edge
put_world s (r, w) = (r, record s { world = w })

abbrev pub in_world : {A : Type 0} → Exec World A → Exec Edge A
in_world m s = put_world s (m s.world)

abbrev pub Handler : Type 0
Handler = Request → Exec Edge Response
