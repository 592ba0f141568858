-- ===== src/Pipeline/Requests.antt =====
-- `run_standalone_non_stream` of otari/src/gateway/api/routes/_pipeline.py, from the end of the
-- dispatch on.
use mozilla_ai.Common.{ℕ, String, Bool, true, false, Option, none, some, if◌then◌else◌}
use mozilla_ai.Streaming.{CompletionUsage}
use mozilla_ai.Pipeline.{
  World, LogCall, Logged, logged, log_raised, or_zero, log_usage, RequestContext, reconcile_if_any,
  release_reservation, Target, entry_for, log_failure_and_refund,
}

-- what a dispatch raises, by the handler that catches it; a cancellation is no `Exception`
pub data Exception : Type 0 where
  http_exception : ℕ → String → Exception
  max_tool_iterations_exceeded : String → Exception
  sandbox_not_reachable : String → Exception
  web_search_not_reachable : String → Exception
  other_exception : String → Exception
  cancelled : Exception

pub data Dispatched (R : Type 0) : Type 0 where
  result : R → Dispatched R
  raises : Exception → Dispatched R

-- what the request ends with: its result, an HTTPException that passes through, the adapter's error
-- of a status, its error for a provider, an exception of the handler itself, or the cancellation
pub data Ended (R : Type 0) : Type 0 where
  returns : R → Ended R
  reraised : ℕ → String → Ended R
  adapter_error : ℕ → String → Ended R
  provider_error : String → Ended R
  handler_raised : String → Ended R
  cancelled_error : Ended R

-- `adapter.extract_usage` and `adapter.log_success_without_usage`
pub record Adapter (R : Type 0) : Type 0 where
  pub extract_usage : R → Option CompletionUsage
  pub log_success_without_usage : Bool

abbrev pub sandbox_unreachable_detail : String
sandbox_unreachable_detail = "code_execution sandbox unreachable — check OTARI_SANDBOX_URL"

abbrev pub web_search_unreachable_detail : String
web_search_unreachable_detail = "web_search backend unreachable — check OTARI_WEB_SEARCH_URL"

-- `raise e'` after `_log_failure_and_refund`, unless that raises
abbrev pub unless_raised : {R : Type 0} → Ended R → Option String × World → Ended R × World
unless_raised e (none, w) = (e, w)
unless_raised e (some exc, w) = (handler_raised exc, w)

module _ (ctx : RequestContext) (target : Target) where
  -- logged where there is a usage, or the format logs without one
  abbrev pub log_success : Bool → LogCall → Option CompletionUsage → World → Logged × World
  log_success always call (some u) w =
      log_usage call (record (entry_for ctx target) { usage_override = some u }) w
  log_success true call none w = log_usage call (entry_for ctx target) w
  log_success false call none w = (logged none, w)

module _ {R : Type 0} (ctx : RequestContext) (target : Target) where
  -- the `except` clauses
  abbrev pub handle : LogCall → Exception → World → Ended R × World
  handle call (http_exception status detail) w = (reraised status detail, release_reservation ctx w)
  handle call (max_tool_iterations_exceeded e) w =
      unless_raised (adapter_error 422 e) (log_failure_and_refund call ctx target e w)
  handle call (sandbox_not_reachable e) w =
      (adapter_error 502 sandbox_unreachable_detail, release_reservation ctx w)
  handle call (web_search_not_reachable e) w =
      (adapter_error 502 web_search_unreachable_detail, release_reservation ctx w)
  handle call (other_exception e) w =
      unless_raised (provider_error e) (log_failure_and_refund call ctx target e w)
  handle call cancelled w = (cancelled_error, w)

  -- after the log of a success; an exception of the log goes to the handlers
  abbrev pub reconcile_after : LogCall → R → Logged × World → Ended R × World
  reconcile_after call r (logged cost, w) =
      (returns r, reconcile_if_any ctx.reservation (or_zero cost) w)
  reconcile_after call r (log_raised exc, w) = handle call (other_exception exc) w

  abbrev pub settle : Adapter R → LogCall → LogCall → Dispatched R → World → Ended R × World
  settle adapter first second (raises exc) w = handle second exc w
  settle adapter first second (result r) w =
      if ctx.has_db
      then reconcile_after second r (
          log_success ctx target adapter.log_success_without_usage first (adapter.extract_usage r)
            w)
      else (returns r, w)

  -- `first` is the call of `log_usage` for the success, `second` that for a failure
  unfoldable pub run_standalone_non_stream :
      Adapter R → LogCall → LogCall → Dispatched R → World → Ended R × World
  run_standalone_non_stream adapter first second dispatched w =
      settle adapter first second dispatched w
