-- ===== src/Pipeline.antt =====
-- Usage logging and the settlement of reservations, otari/src/gateway/api/routes/_pipeline.py. The
-- world is the database of Budget with the usage log; an UPDATE of a settlement goes through, and
-- money is in the unit of Budget. Tracing, metrics and the session's own objects are left out.
pub mod Requests
pub mod Streams
pub mod Logs
pub mod Settled
pub mod StreamSettled
pub mod Users
pub mod Preamble
pub mod Context
pub mod Rejected
pub mod Tools
pub mod Dispatch
pub mod Allowed
pub mod Exclusive
pub mod Hybrid
pub mod Delivered
pub mod Metered
pub mod Handed
mod Tests
mod ToolTests
mod HybridTests
use mozilla_ai.Common.{
  ℕ, String, Bool, true, false, Option, none, some, List, [], ◌∷◌, ◌++◌, if◌then◌else◌,
}
use mozilla_ai.Common.Int.{pos}
use mozilla_ai.Streaming.{CompletionUsage, cache_read_tokens_of, cache_write_tokens_of}
use mozilla_ai.Pricing.{PriceSource, find_model_pricing}
use mozilla_ai.Budget.{Db, ReservationHandle}
use mozilla_ai.Budget.Cost.{usage_cost}
use mozilla_ai.Budget.Reserve.{reconcile_reservation, refund_reservation}

pub record Tokens : Type 0 where
  pub prompt_tokens : ℕ
  pub completion_tokens : ℕ
  pub total_tokens : ℕ
  pub cache_read_tokens : ℕ
  pub cache_write_tokens : ℕ

-- a row of `usage_logs`, but for its random id
pub record UsageLog : Type 0 where
  pub api_key_id : Option String
  pub user_id : Option String
  pub timestamp : ℕ
  pub model : String
  pub provider : Option String
  pub endpoint : String
  pub status : String
  pub error_message : Option String
  pub tokens : Option Tokens
  pub cost : Option ℕ

pub record World : Type 0 where
  pub db : Db
  pub usage_logs : List UsageLog

-- what one call of `log_usage` meets: the time, the prices, and the exceptions that the query for a
-- price or the writer raise, if any
pub record LogCall : Type 0 where
  pub now : ℕ
  pub prices : PriceSource
  pub query_error : Option String
  pub put_error : Option String

-- the arguments of `log_usage`; `response_usage` is that of a `ChatCompletion`
pub record Entry : Type 0 where
  pub api_key_id : Option String
  pub model : String
  pub provider : Option String
  pub endpoint : String
  pub user_id : Option String
  pub response_usage : Option CompletionUsage
  pub usage_override : Option CompletionUsage
  pub error : Option String
  pub cost_override : Option ℕ

-- the end of `log_usage`: the cost, or what it raised
pub data Logged : Type 0 where
  logged : Option ℕ → Logged
  log_raised : String → Logged

module _ {A : Type 0} where
  -- `a`, or where it is None `b`
  abbrev pub or_else : Option A → Option A → Option A
  or_else none b = b
  or_else (some a) b = some a

abbrev pub or_zero : Option ℕ → ℕ
or_zero none = 0
or_zero (some n) = n

abbrev pub tokens_of : CompletionUsage → Tokens
tokens_of u = record {
  prompt_tokens = u.prompt_tokens;
  completion_tokens = u.completion_tokens;
  total_tokens = u.total_tokens;
  cache_read_tokens = cache_read_tokens_of u;
  cache_write_tokens = cache_write_tokens_of u;
}

-- the cost at the price in effect, none where there is no price
unfoldable pub priced : LogCall → Entry → CompletionUsage → Option ℕ
priced call e u =
    usage_cost (find_model_pricing call.prices e.provider e.model call.now) u.prompt_tokens
      u.completion_tokens

abbrev pub status_of : Option String → String
status_of none = "success"
status_of (some _) = "error"

abbrev pub log_row : LogCall → Entry → Option Tokens → Option ℕ → UsageLog
log_row call e tokens cost = record {
  api_key_id = e.api_key_id;
  user_id = e.user_id;
  timestamp = call.now;
  model = e.model;
  provider = e.provider;
  endpoint = e.endpoint;
  status = status_of e.error;
  error_message = e.error;
  tokens = tokens;
  cost = or_else e.cost_override cost;
}

-- `await log_writer.put(usage_log)`, and the return
abbrev pub put_row : Option String → UsageLog → World → Logged × World
put_row none row w = (logged row.cost, record w { usage_logs = w.usage_logs ++ row ∷ [] })
put_row (some exc) row w = (log_raised exc, w)

-- the query for the price, and what is done after it
abbrev pub after_query : Option String → (World → Logged × World) → World → Logged × World
after_query none go_on w = go_on w
after_query (some exc) go_on w = (log_raised exc, w)

abbrev pub log_with : LogCall → Entry → Option CompletionUsage → World → Logged × World
log_with call e none w = put_row call.put_error (log_row call e none none) w
log_with call e (some u) w =
    after_query call.query_error
      (put_row call.put_error (log_row call e (some (tokens_of u)) (priced call e u))) w

unfoldable pub log_usage : LogCall → Entry → World → Logged × World
log_usage call e w = log_with call e (or_else e.usage_override e.response_usage) w

abbrev pub refund : ReservationHandle → World → World
refund h w = record w { db = refund_reservation h w.db }

abbrev pub reconcile : ReservationHandle → ℕ → World → World
reconcile h cost w = record w { db = reconcile_reservation h (pos cost) w.db }

-- what a request carries: whether it has a database, and its reservation
pub record RequestContext : Type 0 where
  pub has_db : Bool
  pub api_key_id : Option String
  pub user_id : Option String
  pub reservation : Option ReservationHandle

abbrev pub refund_if_any : Option ReservationHandle → World → World
refund_if_any none w = w
refund_if_any (some h) w = refund h w

abbrev pub reconcile_if_any : Option ReservationHandle → ℕ → World → World
reconcile_if_any none cost w = w
reconcile_if_any (some h) cost w = reconcile h cost w

unfoldable pub release_reservation : RequestContext → World → World
release_reservation ctx w = if ctx.has_db then refund_if_any ctx.reservation w else w

-- the model, its provider and the endpoint, as `log_usage` gets them
pub record Target : Type 0 where
  pub model : String
  pub provider : Option String
  pub endpoint : String

abbrev pub entry_for : RequestContext → Target → Entry
entry_for ctx target = record {
  api_key_id = ctx.api_key_id;
  model = target.model;
  provider = target.provider;
  endpoint = target.endpoint;
  user_id = ctx.user_id;
  response_usage = none;
  usage_override = none;
  error = none;
  cost_override = none;
}

abbrev pub refund_after : RequestContext → Logged × World → Option String × World
refund_after ctx (log_raised exc, w) = (some exc, w)
refund_after ctx (logged cost, w) = (none, refund_if_any ctx.reservation w)

-- `_log_failure_and_refund`: the exception that it raises itself, if any
unfoldable pub log_failure_and_refund :
    LogCall → RequestContext → Target → String → World → Option String × World
log_failure_and_refund call ctx target error w =
    if ctx.has_db
    then refund_after ctx (log_usage call (record (entry_for ctx target) { error = some error }) w)
    else (none, w)
