-- ===== src/Pipeline/Streams.antt =====
-- `build_streaming_response` and `run_single_attempt_stream` of
-- otari/src/gateway/api/routes/_pipeline.py: the callbacks of a stream, and what they do to the world.
-- Each call of a callback may be cancelled.
use mozilla_ai.Common.{
  ℕ, suc, String, Bool, not, ◌||◌, Option, none, some, List, [], ◌∷◌, if◌then◌else◌, str_eq,
  string_eq,
}
use mozilla_ai.Streaming.{StreamFormat, CompletionUsage}
use mozilla_ai.Streaming.Generator.{
  Callbacks, Consumer, Ending, Outcome, returned, failed, cut_off, Call, completed, no_usage,
  errored, incomplete, Run, streaming_generator,
}
use mozilla_ai.Pipeline.Requests.{
  Exception, http_exception, max_tool_iterations_exceeded, sandbox_not_reachable,
  web_search_not_reachable, other_exception, cancelled, Ended, reraised, adapter_error,
  provider_error, cancelled_error, unless_raised, sandbox_unreachable_detail,
  web_search_unreachable_detail,
}
use mozilla_ai.Pipeline.{
  World, LogCall, RequestContext, reconcile_if_any, Target, refund_if_any, release_reservation,
  Logged, log_raised, refund, log_failure_and_refund, log_usage, entry_for, logged, or_zero,
  reconcile,
}
use mozilla_ai.Budget.{ReservationHandle}

-- the arguments of `build_streaming_response` that its callbacks read; the platform is told of the
-- usage where there is a correlation id
pub record Setup : Type 0 where
  pub ctx : RequestContext
  pub target : Target
  pub platform_active : Bool
  pub stream_missing_usage_policy : String

-- how a callback ends, and the world that it leaves
abbrev pub Effect : Type 0
Effect = Outcome × World

abbrev quiet : World → Effect
quiet w = (returned, w)

-- where a call of a callback is cancelled: before what it writes is committed, between its log and its
-- settlement, which cancels nothing where it does not log, or after all of it
pub data Cut : Type 0 where
  not_cut : Cut
  before_commit : Cut
  after_log : Cut
  after_commit : Cut

module _ (setup : Setup) (call : LogCall) where
  abbrev pub unless_after_log : Cut → World → Effect → Effect
  unless_after_log not_cut w e = e
  unless_after_log before_commit w e = e
  unless_after_log after_log w e = (cut_off, w)
  unless_after_log after_commit w e = e

  abbrev pub settle_logged : Cut → (ℕ → World → World) → Logged × World → Effect
  settle_logged cut settle (log_raised exc, w) = (failed, w)
  settle_logged cut settle (logged cost, w) =
      unless_after_log cut w (returned, settle (or_zero cost) w)

  abbrev pub on_complete : Cut → CompletionUsage → World → Effect
  on_complete cut usage w =
      if setup.platform_active || not setup.ctx.has_db
      then quiet w
      else settle_logged cut (reconcile_if_any setup.ctx.reservation) (
          log_usage call (record (entry_for setup.ctx setup.target) { usage_override = some usage })
            w)

  -- `allow_free` logs the request and refunds; the other policies charge the estimate
  abbrev pub by_policy : Cut → ReservationHandle → World → Effect
  by_policy cut h w =
      if str_eq setup.stream_missing_usage_policy "allow_free"
      then settle_logged cut (λ cost w'. refund h w')
          (log_usage call (entry_for setup.ctx setup.target) w)
      else settle_logged cut (λ cost w'. reconcile h h.estimate w')
          (log_usage call
            (record (entry_for setup.ctx setup.target) {
              error =
                  if str_eq setup.stream_missing_usage_policy "fail"
                  then some "stream completed without usage data"
                  else none;
              cost_override = some h.estimate;
            })
            w)

  abbrev pub if_reserved :
      Option ReservationHandle → (ReservationHandle → World → Effect) → World → Effect
  if_reserved none act w = quiet w
  if_reserved (some h) act w = act h w

  abbrev pub on_no_usage : Cut → World → Effect
  on_no_usage cut w =
      if setup.ctx.has_db then if_reserved setup.ctx.reservation (by_policy cut) w else quiet w

  abbrev pub on_error : Cut → String → World → Effect
  on_error cut error w =
      if setup.platform_active || not setup.ctx.has_db
      then quiet w
      else settle_logged cut (λ cost w'. refund_if_any setup.ctx.reservation w')
          (log_usage call (record (entry_for setup.ctx setup.target) { error = some error }) w)

  abbrev pub on_incomplete : World → Effect
  on_incomplete w =
      if setup.ctx.has_db then quiet (refund_if_any setup.ctx.reservation w) else quiet w

  abbrev pub cut_short : Cut → World → Effect → Effect
  cut_short not_cut w e = e
  cut_short before_commit w e = (cut_off, w)
  cut_short after_log w e = e
  cut_short after_commit w e = (cut_off, e.1)

  abbrev pub run_call : Cut → Call → World → Effect
  run_call cut (completed usage) w = cut_short cut w (on_complete cut usage w)
  run_call cut no_usage w = cut_short cut w (on_no_usage cut w)
  run_call cut (errored error) w = cut_short cut w (on_error cut error w)
  run_call cut incomplete w = cut_short cut w (on_incomplete w)

  -- the calls that are made, each cut off as `cuts` says of its number
  abbrev pub run_calls : (ℕ → Cut) → ℕ → List Call → World → World
  run_calls cuts n [] w = w
  run_calls cuts n (c ∷ calls) w = run_calls cuts (suc n) calls (run_call (cuts n) c w).1

  -- the callbacks, by how they end when they are called in the world `w`; only the first call decides
  -- what is called after it
  abbrev pub callbacks :
      {C : Type 0} → (C → String) → (C → Option CompletionUsage) → Cut → World → Callbacks C
  callbacks format_chunk extract_usage cut w = record {
    format_chunk = format_chunk;
    extract_usage = extract_usage;
    on_complete = λ usage. (run_call cut (completed usage) w).0;
    on_error = λ error. (run_call cut (errored error) w).0;
    on_no_usage = some (run_call cut no_usage w).0;
    on_incomplete = some (run_call cut incomplete w).0;
  }

  -- the response's generator, run to its end, and the world after its callbacks
  unfoldable pub stream_response :
      {C : Type 0}
      → StreamFormat
      → (C → String)
      → (C → Option CompletionUsage)
      → (ℕ → Cut)
      → List (C × Consumer)
      → Ending
      → World
      → Run × World
  stream_response fmt format_chunk extract_usage cuts chunks ending w =
      let run =
        streaming_generator fmt (callbacks format_chunk extract_usage (cuts 0) w) chunks ending in
      (run, run_calls cuts 0 run.called w)

  -- the handlers of `run_single_attempt_stream` for what opening the stream raises
  unfoldable pub open_failed : {R : Type 0} → Exception → World → Ended R × World
  open_failed (http_exception status detail) w =
      (reraised status detail, release_reservation setup.ctx w)
  open_failed (sandbox_not_reachable e) w =
      (adapter_error 502 sandbox_unreachable_detail, release_reservation setup.ctx w)
  open_failed (web_search_not_reachable e) w =
      (adapter_error 502 web_search_unreachable_detail, release_reservation setup.ctx w)
  open_failed (max_tool_iterations_exceeded e) w =
      unless_raised (provider_error e) (log_failure_and_refund call setup.ctx setup.target e w)
  open_failed (other_exception e) w =
      unless_raised (provider_error e) (log_failure_and_refund call setup.ctx setup.target e w)
  open_failed cancelled w = (cancelled_error, w)
