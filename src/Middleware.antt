-- ===== src/Middleware.antt =====
-- app/middleware/trace.py, and the order in which app/main.py nests the middlewares: the last one
-- added is the outermost.
pub mod Order
use cortex_cloud_api.Prelude.{ℕ, String, Bool, Option, none, some, List, [], ◌∷◌}
use cortex_cloud_api.Prelude.Int.{pos}
use cortex_cloud_api.Effects.{Exn, Result, ok, raised, Exec, pure, catch, ◌>>=◌}
use cortex_cloud_api.Json.{Json, str, int, object_of}
use cortex_cloud_api.Edge.{Request, Response, Edge, Handler}
use cortex_cloud_api.RateLimit.{Luck, x402_rate_limit}
use cortex_cloud_api.X402.{Outside, dispatch}
use cortex_cloud_api.X402.Challenge.{X402Settings, given}

module _ (uuid4 : Edge → String) where
  -- The correlation id that the request brings, or a new one.
  unfoldable pub correlation_id_of : Request → Edge → String
  correlation_id_of request s = elim (given request.x_correlation_id) [
    | none ↦ uuid4 s
    | some id ↦ id
  ]

  abbrev pub internal_error : String → Response
  internal_error id = record {
    status_code = 500;
    content = object_of (
        (
          "error",
          object_of (
              (
                "message",
                str "Internal Server Error. Please contact support with this Correlation ID.",
              )
              ∷ ("type", str "api_error")
              ∷ ("code", int (pos 500))
              ∷ ("correlation_id", str id)
              ∷ []),
        )
        ∷ []);
    payment_required = none;
    payment_response = none;
    correlation_id = some id;
  }

  abbrev pub set_id : String → Response → Response
  set_id id response = record response { correlation_id = some id }

  -- `TracingMiddleware.dispatch`: what is inside runs with the id bound.
  unfoldable pub trace : (String → Handler) → Handler
  trace call_next request s =
      let id = correlation_id_of request s in
      catch (do response ← call_next id request; pure (set_id id response))
        (λ exc. pure (internal_error id)) s

  -- `app.add_middleware` of the tracing, then of the limit for each IP, then of the paywall.
  unfoldable pub app : X402Settings → Outside → Luck → (String → Handler) → Handler
  app settings out luck routes = dispatch settings out (x402_rate_limit luck (trace routes))
