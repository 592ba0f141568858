-- ===== src/Pipeline/HybridTests.antt =====
-- Requests of the hybrid mode whose first attempt fails.
use mozilla_ai.Common.{
  ℕ, suc, ◌+◌, ◌≡◌, refl, inl, true, false, none, some, [], ◌∷◌, ◌==◌, if◌then◌else◌, string_eq,
  List, Option, not, not,
}
use mozilla_ai.Pipeline.Tools.{ToolContext}
use mozilla_ai.Pipeline.Dispatch.{backend_of}
use mozilla_ai.Platform.{ResolvedAttempt}
use mozilla_ai.Platform.Errors.{Upstream, plain, status_int, absent, classify_upstream_error}
use mozilla_ai.Platform.Attempts.{Runner, failed, Report}
use mozilla_ai.Streaming.Attempts.{iterate_streaming_attempts, attempts_from, got, raises}
use mozilla_ai.Pipeline.Hybrid.{
  Surrounding, streams, stream_raises, run_streaming_with_fallback, run_platform_non_stream,
  flush_pending_usage_reports,
}
use mozilla_ai.Pipeline.Delivered.{Delivers, recording, start, run_platform_non_stream-Delivers}
use mozilla_ai.Pipeline.Handed.{Settles, run_streaming_with_fallback-Settles}
use mozilla_ai.Pipeline.Metered.{metered, blank}
use mozilla_ai.Common.Int.{pos}

abbrev in_sandbox : ToolContext
in_sandbox = record {
  mcp_server_configs = none;
  use_sandbox = true;
  sandbox_tool_entry = none;
  sandbox_url = some "http://sandbox";
  sandbox_auth_token = none;
  use_web_search = false;
  web_search_tool_entry = none;
  web_search_url = none;
  web_search_auth_token = none;
  remaining_user_tools = none;
  max_tool_iterations = 10;
  tools_header = none;
}

-- attempts below `good` fail before their first chunk
abbrev env : ℕ → Surrounding ℕ ℕ ℕ ℕ ℕ ℕ
env good = record {
  enter = λ backend w. (inl 9, w);
  aclose = λ pool w. w + 100;
  open_provider_stream = λ a w. (inl a, w);
  open_tool_loop_stream = λ pool a w. (inl a, w);
  first_chunk = λ s w. (if s == good then got 5 else raises 503, w + 1);
  close_stream_quietly = λ s w. w;
  classify_error = λ exc. (true, "http_503");
  gather = λ reports w. (none, w + 10);
  is_cancelled = λ exc. exc == 0;
  is_provider = λ a. not (a == 0);
  value_error = 422;
  runtime_error = 1;
  assertion_error = 2;
}

-- The second attempt streams, and its backend stays open.
second_streams : run_streaming_with_fallback (env 2) in_sandbox (1 ∷ 2 ∷ []) 0 ≡ (
  streams 2 (some (5, 2)) (some 9),
  record {
    background_tasks = (1, "http_503") ∷ [];
    pending_error_reports = (1, "http_503") ∷ [];
    world = 2;
  },
)
unfolding run_streaming_with_fallback backend_of iterate_streaming_attempts attempts_from
second_streams = refl

-- An attempt that names no provider fails like one whose stream raises.
unknown_fails : run_streaming_with_fallback (env 2) in_sandbox (0 ∷ 2 ∷ []) 0 ≡ (
  streams 2 (some (5, 2)) (some 9),
  record {
    background_tasks = (0, "http_503") ∷ [];
    pending_error_reports = (0, "http_503") ∷ [];
    world = 1;
  },
)
unfolding run_streaming_with_fallback backend_of iterate_streaming_attempts attempts_from
unknown_fails = refl

-- No attempt streams: the reports are flushed and the backend is closed.
none_streams : run_streaming_with_fallback (env 3) in_sandbox (1 ∷ 2 ∷ []) 0 ≡ (
  stream_raises 503,
  record {
    background_tasks = (1, "http_503") ∷ (2, "http_503") ∷ [];
    pending_error_reports = (1, "http_503") ∷ (2, "http_503") ∷ [];
    world = 112;
  },
)
unfolding run_streaming_with_fallback backend_of iterate_streaming_attempts attempts_from
    flush_pending_usage_reports
none_streams = refl

run_streaming_with_fallback-Settles_example :
    let (run, q) =
      run_streaming_with_fallback (metered (env 3)) in_sandbox (1 ∷ 2 ∷ []) (blank 0) in
    Settles (env 3) run q
run_streaming_with_fallback-Settles_example =
    run_streaming_with_fallback-Settles (env 3) in_sandbox (1 ∷ 2 ∷ []) 0

abbrev attempt : ResolvedAttempt
attempt = record {
  attempt_id = "a1";
  position = pos 0;
  provider = "openai";
  model = "gpt";
  api_base = none;
  api_key = "k1";
  managed = true;
}

abbrev overloaded : Upstream
overloaded = record { class = plain; status_code = status_int 503; response_status = absent }

abbrev runner : Runner ℕ ℕ ℕ
runner = record {
  base_request_fields = [];
  is_provider = λ name. true;
  run_attempt = λ n kwargs. record { locked_in = false; ended = failed overloaded };
  extract_usage = λ r. r;
  classify_error = classify_upstream_error;
}

abbrev gather : List (Report ℕ) → ℕ → Option ℕ × ℕ
gather reports w = (none, suc w)

run_platform_non_stream-Delivers_example :
    let (answer, q) =
      run_platform_non_stream runner (recording gather) (attempt ∷ attempt ∷ []) (start 0) in
    Delivers runner gather answer q
run_platform_non_stream-Delivers_example =
    run_platform_non_stream-Delivers runner gather (attempt ∷ attempt ∷ []) 0
