-- ===== src/Lib.antt =====
-- CortexCloud is an OpenAI-compatible gateway to several providers of language models, written
-- with FastAPI, SQLAlchemy and Redis. Clients pay in one of two ways: with an API key, whose
-- organization's balance is charged for each use, or with a payment for each call by the x402
-- protocol.
--
-- The parts, and the files that model them:
-- - Database: the tables (app/models/*.py) as records, and `World`, the state of a running
--   request: the database, the clock, the calls to providers, the time asleep, and whether the
--   session has a failed flush. Database/Query has what the handlers use of SQLAlchemy,
--   Database/Rules its rules.
-- - Effects: handlers as `Exec S A = S → Result A × S`; an exception keeps what was written before
--   it. Effects/After states what holds after a call, by how it ended; Effects/Results is for code
--   without a state.
-- - Registry: app/services/models.py; Activation is about switching a model off.
-- - Routing: app/routing/router.py. `Routing` has the retries, Routing/Routes the three `route_*`
--   methods; Retry, Rounds, Fallback, Bounds and Settings are about them.
-- - Providers: app/providers/*.py. Providers/OpenAi (which the groq and nvidia providers use too),
--   Providers/Anthropic and Providers/Gemini each have the translation of a request (Request,
--   Tools, Content), of a reply (Reply) and of a stream (Stream). Refinement, Guarantees, Blocks,
--   Results and Alias are about them; Gateway is what the router calls, and Refusals goes through
--   both.
-- - Usage: app/services/usage.py, the cost of a request and its charge. Cost, Ledger, Charging and
--   Guarantees are about rounding, the ledger, `record_usage` and its effect on the accounts.
-- - Security, Auth: app/core/security.py and app/auth/dependencies.py.
-- - Edge: the requests, the responses and the state that the middlewares of app/main.py share;
--   Edge/Redis: sorted sets and counters.
-- - RateLimit: app/middleware/rate_limit.py and app/middleware/x402_rate_limit.py. Window and
--   Recovery are about the sliding window, Overruns about checks at once, FailOpen about a failing
--   server, Caps about the daily and monthly limits, Stale about counters that outlive their
--   period, ApiKeys about the three checks of a key together.
-- - X402: app/middleware/x402.py, with X402/Challenge and X402/Schemas for what it asks;
--   X402/Pricing: app/x402/pricing.py. Outcomes and Prices are about the paywall. X402/Mcp:
--   app/x402/bazaar_routes.py, with Quotes about its prices; X402/Discovery: app/x402/bazaar.py,
--   with Listed about its prices; X402/Status: app/x402/status_routes.py, with Health about its
--   answers; X402/Data: app/x402/data_routes.py, with Unserved about a payment without data.
-- - Middleware: app/middleware/trace.py, and the nesting of the middlewares in app/main.py. App:
--   the table of routes of app/main.py behind them. Prices, Metered, Probes and Total are about
--   which requests pay, what becomes of those that no operation answers, and that all get a
--   response.
-- - Dashboard: app/api/dashboard/routes.py. Accounts has the handlers that write, Reports those
--   that read; Decimals is about the amounts of deposits, and Money, Deposits, Access, EndToEnd
--   and Revocation are about them.
-- - Books: histories of requests that write, each with a session of its own
--   (app/database/session.py). Sums, Sound, Handlers and Revenue are about the accounts over a
--   whole history, Rows, Tables and Indexed about the unique columns. Kept and Database/Keeps have
--   the rules for what calls keep.
-- - Races: charges and deposits of several sessions at once (app/services/usage.py and
--   app/api/dashboard/routes.py) as steps; Charges and Lost are about their orders.
-- - Json, Schemas, Tokenizer: parsed JSON, with Json/Access for dict.get and the like,
--   app/schemas/openai.py and app/usage/tokenizer.py.
-- - Completions: app/api/v1/completions.py; Streams has the wrapper of a stream, Paid the
--   endpoints of app/x402/routes.py; Endpoint is `POST /v1/chat/completions` as a whole;
--   Guarantees, Losses, Keeps and Entry are about what is charged, what is not, what is written at
--   all, and who gets in.
-- - Admin: app/admin/routes.py.
-- - OnChain: app/x402/onchain_routes.py; Fallback is about its RPC endpoints.
-- - Activity: app/activity.py; Shows is about what the feed shows.
-- - Seed: app/scratch/seed_dev.py; Steps and Again are about running it twice.
-- - Migrations: migrations/versions/*.py as lists of statements; Initial and Indexes are the
--   revisions. Sound, RoundTrip and Revisions are about going up and down again.
-- - Tests: runs on a sample database and gateway, and instances of the theorems.
--
-- How they interact: the paywall runs first, then the limit for each IP, then the tracing, then
-- CORS, then the endpoint. An endpoint of /v1 authenticates its key (`verify_api_key`), checks its
-- limits (`check_api_key_limits`), routes the request, and records its use; `World` is the state
-- that they hand on. An endpoint of /x402/v1 only routes.
--
-- What stands for code elsewhere: the answers of the providers' servers (`HttpReply`,
-- `HttpStream`), and to the router those of the providers (`Answer`, by the number of the call),
-- json, uuid and the checks of pydantic (`Python`), the answers of a chain, of Redis and of the
-- data services (`Chain`, `Tallies`, `Reply`), the x402 SDK (`Sdk`), bcrypt, jwt and HMAC
-- (`Crypto`), tiktoken (`Tiktoken`), the facilitator, base64 and the signing of its headers
-- (`Outside`), and which Redis commands fail (`Luck`) are parameters.
--
-- Redis, the database and its schema are modelled by what the source uses of them (Edge/Redis,
-- Database/Query, Migrations).
--
-- Units and bounds: money is in micro-dollars, the six decimals of the columns Numeric(12, 6),
-- whose width `fits_numeric` checks; prices are in units of $0.0001 for a million tokens; times
-- are in milliseconds. Nothing runs on fuel but `retry_from`, whose fuel is the number of
-- attempts. Text is lowered as ASCII. The amount of a deposit is a decimal of any precision
-- (Dashboard/Decimals).
--
-- Not modelled: the catalogue (app/pricing.py), which is constant; the mock of a billing service
-- (app/billing/*.py) and the health check of app/main.py, which nothing calls; the checks that
-- pydantic makes of a request; the start-up and the static pages of app/main.py; and connections,
-- logging and the start of Alembic.
pub mod Prelude
pub mod Effects
pub mod Database
pub mod Registry
pub mod Json
pub mod Schemas
pub mod Routing
pub mod Usage
pub mod Security
pub mod Auth
pub mod Edge
pub mod RateLimit
pub mod X402
pub mod Middleware
pub mod Dashboard
pub mod Tokenizer
pub mod Completions
pub mod Providers
pub mod Admin
pub mod OnChain
pub mod Seed
pub mod Activity
pub mod Migrations
pub mod App
pub mod Books
pub mod Races
mod Tests
