-- ===== src/Tests/Gateway.antt =====
-- A gateway at rest, and a client that pays.
use cortex_cloud_api.Prelude.{ℕ, zero, suc, String, true, false, Option, none, some, List, [], ◌∷◌}
use cortex_cloud_api.Effects.{pure}
use cortex_cloud_api.Json.{null, boolean, object_of}
use cortex_cloud_api.Edge.{Request, Edge, Endpoint, verify, settle, Handler}
use cortex_cloud_api.Edge.Redis.{Hit, SortedSet, empty_set}
use cortex_cloud_api.RateLimit.{Luck}
use cortex_cloud_api.X402.{Outside, Reply, replied}
use cortex_cloud_api.X402.Challenge.{X402Settings, respond}
use cortex_cloud_api.Tests.Samples.{world}

abbrev pub luck : Luck
luck = record { fails = λ n. false; suffix = λ n. n }

abbrev pub settings : X402Settings
settings = record {
  enabled = true;
  wallet_address = some "0xwallet";
  network = "eip155:8453";
  resource_base = "https://cortexcloud.org";
  facilitator_api_key = none;
  facilitator_api_key_id = none;
  facilitator_api_key_secret = none;
}

abbrev approve : Endpoint → Reply
approve verify = replied 200 "" (some (object_of (("isValid", boolean true) ∷ [])))
approve settle = replied 200 "" (some (object_of (("success", boolean true) ∷ [])))

-- A facilitator that approves every payment.
abbrev pub outside : Outside
outside = record {
  decode_payment = λ header. some null;
  cdp_auth_headers = λ id secret. none;
  post = λ events endpoint body headers. approve endpoint;
}

abbrev pub request_to : String → Option String → Request
request_to path payment = record {
  method = "POST";
  path = path;
  client_ip = some "10.0.0.1";
  authorization = none;
  x_payment = payment;
  payment_signature = none;
  x_correlation_id = some "cid";
}

abbrev pub paid_request : Request
paid_request = request_to "/x402/v1/chat/completions" (some "e30=")

abbrev pub free_request : Request
free_request = request_to "/x402/v1/models" none

abbrev many : ℕ → List Hit
many zero = []
many (suc n) = record { time = 4000; suffix = suc n } ∷ many n

abbrev pub edge_with : (String → SortedSet) → Edge
edge_with sets = record {
  world = world;
  redis = record { sets = sets; counters = λ key. none; commands = 0 };
  events = [];
}

abbrev pub edge : Edge
edge = edge_with λ key. empty_set

-- Every key has had sixty requests a second ago.
abbrev pub busy_edge : Edge
busy_edge = edge_with λ key. record { hits = many 60; expires_at = 69_000 }

abbrev pub routes : String → Handler
routes id request = pure (respond 200 null)

abbrev pub uuid4 : Edge → String
uuid4 s = "new-id"
