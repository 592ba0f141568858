-- ===== src/Lib.antt =====
-- The gateway Otari (otari/src/gateway): how a request is limited, priced, paid for, sent through the
-- tools of the gateway, streamed back and logged.
--
-- A request passes the rate limiter, has the estimate of its cost reserved in the budget of its user,
-- is sent to a provider (with the tools of the gateway, in the tool loop, or as a stream with other
-- providers to fall back on), has its true cost settled against the reservation, and leaves a row in
-- the usage log. The prices that the estimate and the cost are computed from are looked up by model.
-- The URLs that a tool would fetch are checked first.
--
-- Common: numbers, texts, dictionaries and tests that the modules share.
-- RateLimit (rate_limit.py): `RateLimiter` with its deques, its sweep and its 429. Window is the
--   live part of a deque, Tracking the sliding window and what the limiter keeps of it, Refinement and
--   Retry the proofs.
-- Pricing (services/pricing_service.py, models/entities.py): the lookup of a price by the canonical
--   and the legacy key, with the default prices of the package genai-prices as a parameter. Lookup
--   has the proofs.
-- Budget (services/budget_service.py, models/entities.py): the tables, and a database action as a
--   function of them that returns or raises. Normalize, Validate, Reserve and Rows model the
--   functions; Effects, Admission, Resets, Cost, Held, ReserveHeld and TopUp prove what one of them
--   does, and Interleaving and NoOverspend what any sequence of transactions of several requests does. A
--   transaction is one step, as the single UPDATE that carries it is; reads before it are values that
--   may be stale.
-- ToolLoop (services/mcp_loop.py): the calls of tools. Rounds has `mcp_tool_loop` and Stream
--   `mcp_tool_loop_stream`, both on the rounds that are left. Split, Ownership, Meters, Totals and
--   Returned have the proofs of the one, Terminal, Forwarded and Deltas those of the other; Hints has
--   `inject_purpose_hints`.
-- Streaming (streaming.py, core/usage.py): `streaming_generator` on a list of chunks with what the
--   consumer does at each yield, and `iterate_streaming_attempts`. Settlement, Billed and Fallback
--   have the proofs.
-- UrlSafety (services/url_safety.py, core/env.py): the two checks of a URL. Accepted and Agreement
--   have the proofs.
-- LogWriter (services/log_writer.py): the single and the batch writer, which has a loop for each start.
--   Loops, Delivery and Conservation have the proofs.
-- Pipeline (api/routes/_pipeline.py, api/routes/_helpers.py): `log_usage`, the preamble of a request,
--   which reserves its estimate, the preparation of its tools, and how a request and a stream settle it.
--   Users, Preamble and Context model the preamble, Tools and Dispatch the tools, Requests and Streams
--   what follows; Hybrid has the runners of the hybrid mode; Rejected, Allowed,
--   Exclusive, Logs, Settled, StreamSettled, Delivered, Metered and Handed have the proofs.
-- Selector (services/provider_kwargs.py, core/config.py): the resolution of a model selector, and the
--   key of a price. Split and Keys have the proofs.
-- Platform (api/routes/_platform.py, api/routes/_pipeline.py, models/mcp.py): the hybrid mode. Errors
--   classifies exceptions; Attempts has `run_platform_attempts`, with its proofs in Walk and Statuses;
--   Payload reads a route, with the proofs in Shapes; Resolve and McpServers ask the platform, with
--   those in Forward; Report reports usage, with those in Bounded; Origin says which URL gets the
--   token, with those in Inside.
-- PriceInit (services/pricing_init_service.py): the prices that a start writes. Restart has the proofs.
-- Genetic (genetic_budget_engine.py): the engine that breeds a budget ceiling. Ticks has its methods;
--   Sorted, Bred, Elitism and Bounded have the proofs.
-- Guardrails (services/guardrails.py, api/routes/_helpers.py): the checks of an input. Verdicts,
--   Enforced and Observed have the proofs.
-- ToolFormat (services/tool_format.py): the tools and the hints of the other APIs. Converted and Hinted
--   have the proofs.
-- Each of them has a module Tests, of runs on concrete inputs; ToolLoop/HintTests and
-- Pipeline/ToolTests have more of them.
--
-- Units: the clock of the limiter counts ticks of 10^-9 s, so that its ceilings are those of exact
-- arithmetic; the dates of budgets and prices are seconds; money is a natural number, in units of
-- 1/(4 * 10^6) of that of the prices where an estimate is compared with a cost. Floats are taken as
-- exact. Python's integers have no bound, and a subtraction that the program clamps at 0 is that of
-- the natural numbers. No function runs on fuel: the loops go down a list, or down the number of
-- rounds that the caller gives.
--
-- Parameters: the provider, the tools, `json.loads`, `urlparse`, `ipaddress`, the resolver, the
-- environment, the callbacks of a stream and the end of a commit, as arguments; a theorem holds for
-- all of them unless it states what it asks of one.
--
-- Cancellation: of the consumer and the callbacks of a stream, of the set-up that follows a
-- reservation, of the dispatch of a request and of a flush of the log; in the hybrid mode it is one of
-- the exceptions of the caller's type. No other await is cancelled.
--
-- Not modelled: the routes and their HTTP types, the loops for the messages and the responses API,
-- the tool backends, files, keys and models; of the pipeline the preamble in hybrid mode,
-- and the lazy stream of an MCP pool.
-- The rest of the repository (any-agent, encoderfile, mcpd, the telemetry scripts and the web page) is
-- apart from the gateway.
pub mod Common
pub mod RateLimit
pub mod Pricing
pub mod Budget
pub mod ToolLoop
pub mod Streaming
pub mod UrlSafety
pub mod LogWriter
pub mod Pipeline
pub mod Selector
pub mod Platform
pub mod PriceInit
pub mod Genetic
pub mod Guardrails
pub mod ToolFormat
