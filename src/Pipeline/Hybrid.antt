-- ===== src/Pipeline/Hybrid.antt =====
-- The requests of the hybrid mode: `run_streaming_with_fallback`, `run_platform_non_stream` and
-- `_flush_pending_usage_reports` of otari/src/gateway/api/routes/_pipeline.py. Opening a backend, the
-- provider and the reports that are sent together act on a world.
use mozilla_ai.Common.{
  String, Bool, ◌⊎◌, inl, inr, Option, none, some, List, [], ◌∷◌, ◌++◌, if◌then◌else◌,
}
use mozilla_ai.Platform.{ResolvedAttempt, HttpException}
use mozilla_ai.Platform.Errors.{http_exception}
use mozilla_ai.Platform.Attempts.{
  Runner, Ended, returns, raises, value_error, Report, error_report, success_report, Log,
  run_platform_attempts,
}
use mozilla_ai.Pipeline.Tools.{ToolContext}
use mozilla_ai.Pipeline.Dispatch.{
  Backend, provider_alone, mcp_pool, sandbox, web_search, backend_of,
}
use mozilla_ai.Streaming.Attempts.{
  Upstream, FirstChunk, Result, stitched, empty_stream, raise, no_attempts,
  iterate_streaming_attempts,
}

-- `_report_platform_usage` for each report at once, cut off after a while: the failures of the reports
-- and the timeout are only logged, and another exception, such as a cancellation, goes through
unfoldable pub flush_pending_usage_reports :
    {T X W : Type 0} → (List T → W → Option X × W) → List T → W → Option X × W
flush_pending_usage_reports gather [] w = (none, w)
flush_pending_usage_reports gather (r ∷ reports) w = gather (r ∷ reports) w

-- the queue of background tasks, and the reports that were stashed
pub record Queued (T W : Type 0) : Type 0 where
  pub background_tasks : List T
  pub pending_error_reports : List T
  pub world : W

-- the attempt that failed and the class of its error
abbrev pub Failure : Type 0 → Type 0
Failure A = A × String

pub record Surrounding (A S C X P W : Type 0) : Type 0 where
  pub enter : Backend → W → (P ⊎ X) × W
  pub aclose : P → W → W
  pub open_provider_stream : A → W → (S ⊎ X) × W
  pub open_tool_loop_stream : P → A → W → (S ⊎ X) × W
  pub first_chunk : S → W → FirstChunk C X × W
  pub close_stream_quietly : S → W → W
  pub classify_error : X → Bool × String
  pub gather : List (Failure A) → W → Option X × W
  pub is_cancelled : X → Bool
  pub is_provider : A → Bool
  pub value_error : X
  pub runtime_error : X
  pub assertion_error : X

-- a stream for the client, whose end closes the backend where there is one; an exception; or the
-- ValueError of `LLMProvider(chosen.provider)` for the attempt whose stream is open
pub data Streamed (A S C X P : Type 0) : Type 0 where
  streams : A → Option (C × S) → Option P → Streamed A S C X P
  stream_raises : X → Streamed A S C X P
  unknown_provider : A → Option P → Streamed A S C X P

abbrev pub raise_of : {X : Type 0} → X → Option X → X
raise_of exc none = exc
raise_of exc (some other) = other

module _ {A S C X P W : Type 0} (env : Surrounding A S C X P W) where
  -- `backend_stack.aclose()`
  abbrev pub close_stack : Option P → W → W
  close_stack none w = w
  close_stack (some pool) w = env.aclose pool w

  abbrev pub entered : (P ⊎ X) × W → (Option P ⊎ X) × W
  entered (inl pool, w) = (inl (some pool), w)
  entered (inr exc, w) = (inr exc, w)

  abbrev pub open_stack : Option Backend → W → (Option P ⊎ X) × W
  open_stack none w = (inr env.assertion_error, w)
  open_stack (some provider_alone) w = (inl none, w)
  open_stack (some (mcp_pool configs)) w = entered (env.enter (mcp_pool configs) w)
  open_stack (some (sandbox url entry token)) w = entered (env.enter (sandbox url entry token) w)
  open_stack (some (web_search url entry token)) w =
      entered (env.enter (web_search url entry token) w)

  abbrev pub open_for_attempt : Option P → A → W → (S ⊎ X) × W
  open_for_attempt none attempt w = env.open_provider_stream attempt w
  open_for_attempt (some pool) attempt w = env.open_tool_loop_stream pool attempt w

  -- `adapter.attempt_kwargs` raises for a name that is no `LLMProvider`
  abbrev pub build_for_attempt : Option P → A → W → (S ⊎ X) × W
  build_for_attempt pool attempt w =
      if env.is_provider attempt then open_for_attempt pool attempt w else (inr env.value_error, w)

  abbrev pub upstream_of : Option P → Upstream A S C X (Queued (Failure A) W)
  upstream_of pool = record {
    build_stream = λ attempt q.
        let (stream, w) = build_for_attempt pool attempt q.world in
        (stream, record q { world = w });
    first_chunk =
        λ s q. let (chunk, w) = env.first_chunk s q.world in (chunk, record q { world = w });
    close_stream_quietly = λ s q. record q { world = env.close_stream_quietly s q.world };
    classify_error = env.classify_error;
    on_attempt_failed = λ attempt error_class exc q. record q {
      background_tasks = q.background_tasks ++ (attempt, error_class) ∷ [];
      pending_error_reports = q.pending_error_reports ++ (attempt, error_class) ∷ [];
    };
  }

  -- no attempt had a first chunk: the reports are flushed, unless the request was cancelled
  abbrev pub exhausted :
      Option P → X → Queued (Failure A) W → Streamed A S C X P × Queued (Failure A) W
  exhausted pool exc q =
      let (other, w) =
        (if env.is_cancelled exc
          then (none, q.world)
          else flush_pending_usage_reports env.gather q.pending_error_reports q.world) in
      (stream_raises (raise_of exc other), record q { world = close_stack pool w })

  abbrev pub responds : A → Option (C × S) → Option P → Streamed A S C X P
  responds attempt chunk pool =
      if env.is_provider attempt then streams attempt chunk pool else unknown_provider attempt pool

  abbrev pub after_attempts :
      Option P → Result A S C X × Queued (Failure A) W → Streamed A S C X P × Queued (Failure A) W
  after_attempts pool (stitched attempt chunk s, q) = (responds attempt (some (chunk, s)) pool, q)
  after_attempts pool (empty_stream attempt, q) = (responds attempt none pool, q)
  after_attempts pool (raise exc, q) = exhausted pool exc q
  after_attempts pool (no_attempts, q) = exhausted pool env.runtime_error q

  abbrev pub after_open : List A → (Option P ⊎ X) × W → Streamed A S C X P × Queued (Failure A) W
  after_open attempts (inl pool, w) = after_attempts pool (
      iterate_streaming_attempts (upstream_of pool) attempts
        (record { background_tasks = []; pending_error_reports = []; world = w }))
  after_open attempts (inr exc, w) =
      (stream_raises exc, record { background_tasks = []; pending_error_reports = []; world = w })

  unfoldable pub run_streaming_with_fallback :
      ToolContext → List A → W → Streamed A S C X P × Queued (Failure A) W
  run_streaming_with_fallback tool_ctx attempts w =
      after_open attempts (open_stack (backend_of tool_ctx) w)

  -- the finally of `_stream_with_stack_cleanup`
  abbrev pub stream_with_stack_cleanup : Option P → W → W
  stream_with_stack_cleanup pool w = close_stack pool w

-- a result with the `X-Correlation-ID` of its attempt, where it counted as a success, or an exception
pub data Answered (R X : Type 0) : Type 0 where
  answers : R → List ResolvedAttempt → Answered R X
  answers_http : HttpException → Answered R X
  answers_value_error : Answered R X
  answers_other : X → Answered R X

abbrev pub no_resolvable_provider_detail : String
no_resolvable_provider_detail = "Authorization service returned no resolvable provider"

module _ {U : Type 0} where
  -- the reports that are stashed: those that are no success
  abbrev pub pending_of : List (Report U) → List (Report U)
  pending_of [] = []
  pending_of (error_report attempt error_class ∷ reports) =
      error_report attempt error_class ∷ pending_of reports
  pending_of (success_report attempt usage ∷ reports) = pending_of reports

abbrev pub raised_after : {R X : Type 0} → HttpException → Option X → Answered R X
raised_after exc none = answers_http exc
raised_after exc (some other) = answers_other other

module _ {Y R U X W : Type 0} (runner : Runner Y R U)
    (gather : List (Report U) → W → Option X × W) where
  abbrev pub after_runner : Ended R × Log Y U → W → Answered R X × Queued (Report U) W
  after_runner (returns r, log) w = (
    answers r log.successes,
    record {
      background_tasks = log.reports;
      pending_error_reports = pending_of log.reports;
      world = w;
    },
  )
  after_runner (raises exc, log) w =
      let pending = pending_of log.reports in
      let (other, w1) = flush_pending_usage_reports gather pending w in
      (
        raised_after exc other,
        record { background_tasks = log.reports; pending_error_reports = pending; world = w1 },
      )
  after_runner (value_error, log) w = (
    answers_value_error,
    record {
      background_tasks = log.reports;
      pending_error_reports = pending_of log.reports;
      world = w;
    },
  )

  unfoldable pub run_platform_non_stream :
      List ResolvedAttempt → W → Answered R X × Queued (Report U) W
  run_platform_non_stream [] w = (
    answers_http (http_exception 502 no_resolvable_provider_detail),
    record { background_tasks = []; pending_error_reports = []; world = w },
  )
  run_platform_non_stream (attempt ∷ attempts) w =
      after_runner (run_platform_attempts runner (attempt ∷ attempts)) w
