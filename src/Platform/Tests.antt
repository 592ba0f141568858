-- ===== src/Platform/Tests.antt =====
-- Runs of the hybrid mode on two attempts, and its theorems at them.
use mozilla_ai.Common.{
  ℕ, zero, suc, String, ◌≡◌, refl, ◌≢◌, true, false, Option, none, some, [], ◌∷◌, arith, ◌==◌,
  if◌then◌else◌, str_eq, string_eq,
}
use mozilla_ai.Platform.{ResolvedAttempt, ResolvedRoute}
use mozilla_ai.Platform.Errors.{
  Upstream, status_int, absent, plain, http, timed_out, classify_upstream_error,
  classify_provider_error,
}
use mozilla_ai.Platform.Attempts.{
  Runner, Ran, result, failed, returns, raises, run_platform_attempts, terminal,
}
use mozilla_ai.Platform.Walk.{
  Fall, calls_of, errors_of, log_of, decided, run_platform_attempts-decided,
  run_platform_attempts-exhausted,
}
use mozilla_ai.Platform.Statuses.{RaisesNoHttp, EndsSafely, run_platform_attempts-EndsSafely}
use mozilla_ai.Platform.Payload.{Fields, field, text, no_fields, Conversions, parse_resolve_payload}
use mozilla_ai.Platform.Shapes.{parse_resolve_payload-route_json, route_json}
use mozilla_ai.Platform.Report.{responded, unreachable, report_platform_usage}
use mozilla_ai.Platform.Bounded.{IsBounded, report_platform_usage-IsBounded}
use mozilla_ai.Platform.Origin.{
  ParseResult, no_port, port, web_search_url_targets_platform, normalized_origin,
}
use mozilla_ai.Platform.Inside.{web_search_url-IsTrusted, IsTrusted}
use mozilla_ai.Platform.Resolve.{
  Request, Posted, response, split_model_selector, platform_url, extract_platform_user_token,
  credentials_request, web_search_request, resolve_platform_credentials,
  resolve_platform_web_search, resolved,
}
use mozilla_ai.Platform.McpServers.{mcp_servers_request, resolve_platform_mcp_servers}
use mozilla_ai.Platform.Forward.{Answers, resolve_platform-Answers}
use mozilla_ai.Common.Int.{pos}

abbrev first : ResolvedAttempt
first = record {
  attempt_id = "a1";
  position = pos 0;
  provider = "openai";
  model = "gpt";
  api_base = none;
  api_key = "k1";
  managed = true;
}

abbrev second : ResolvedAttempt
second = record first { attempt_id = "a2"; position = pos 1; provider = "mistral" }

abbrev answers_with : ℕ → Upstream
answers_with code = record {
  class = plain;
  status_code = status_int code;
  response_status = absent;
}

-- the first call gets the status `code`, the others a result
abbrev outcome_of : ℕ → ℕ → Ran ℕ
outcome_of code zero = record { locked_in = false; ended = failed (answers_with code) }
outcome_of code (suc n) = record { locked_in = true; ended = result 7 }

abbrev runner : ℕ → Runner ℕ ℕ ℕ
runner code = record {
  base_request_fields = [];
  is_provider = λ name. true;
  run_attempt = λ n kwargs. outcome_of code n;
  extract_usage = λ r. r;
  classify_error = classify_upstream_error;
}

refused_on_auth :
    classify_provider_error (answers_with 401)
    ≡ some (502, "The provider rejected the gateway's credentials")
unfolding classify_provider_error
refused_on_auth = refl

abbrev overloaded : Fall
overloaded = record { attempt = first; exc = answers_with 503; error_class = http 503 }

run_platform_attempts-decided_example :
    run_platform_attempts (runner 503) (first ∷ second ∷ first ∷ []) ≡ (
      returns 7,
      log_of
          (runner 503)
          (overloaded ∷ [])
          second
          (decided (λ r. r) classify_upstream_error second (result 7)),
    )
unfolding classify_upstream_error
run_platform_attempts-decided_example =
    run_platform_attempts-decided (runner 503) (overloaded ∷ []) second (first ∷ []) _
      (refl, refl, refl, tt) refl refl tt

run_platform_attempts-exhausted_example : run_platform_attempts (runner 503) (first ∷ []) ≡ (
  raises (terminal true (some (answers_with 503))),
  record {
    calls = calls_of (runner 503) (overloaded ∷ []);
    reports = errors_of (overloaded ∷ []);
    successes = [];
  },
)
unfolding classify_upstream_error
run_platform_attempts-exhausted_example =
    run_platform_attempts-exhausted (runner 503) (overloaded ∷ []) (refl, refl, refl, tt)
      (omega arith)

outcome_of-RaisesNoHttp : (code n : ℕ) → RaisesNoHttp (outcome_of code n).ended
outcome_of-RaisesNoHttp code zero = tt
outcome_of-RaisesNoHttp code (suc n) = tt

run_platform_attempts-EndsSafely_example :
    EndsSafely (run_platform_attempts (runner 400) (first ∷ second ∷ [])).0
run_platform_attempts-EndsSafely_example =
    run_platform_attempts-EndsSafely (runner 400) first (second ∷ [])
      (λ m kwargs. outcome_of-RaisesNoHttp 400 m)

abbrev python : Conversions
python = record { str_of = λ v. "?"; int_of = λ v. none }

abbrev route : ResolvedRoute
route = record { request_id = "r"; fallback_enabled = true; attempts = first ∷ second ∷ [] }

parse_resolve_payload-route_json_example :
    parse_resolve_payload python (route_json route) ≡ some route
parse_resolve_payload-route_json_example = parse_resolve_payload-route_json python route

abbrev legacy : Fields
legacy = field "correlation_id" (text "c") (
    field "provider" (text "openai")
      (field "model" (text "gpt") (field "api_key" (text "k") no_fields)))

report_platform_usage-IsBounded_example :
    IsBounded
      (λ n. if n == 1 then responded 204 else unreachable)
      3
      0
      1
      (report_platform_usage
        (some "https://p")
        3
        (λ n payload. if n == 1 then responded 204 else unreachable)
        "c"
        "error"
        none
        (some timed_out))
report_platform_usage-IsBounded_example =
    report_platform_usage-IsBounded "https://p" 3
      (λ n payload. if n == 1 then responded 204 else unreachable) "c" "error" none (some timed_out)
      refl (omega arith)

two_posts :
    report_platform_usage
      (some "https://p")
      3
      (λ n payload. if n == 1 then responded 204 else unreachable)
      "c"
      "error"
      none
      none
    ≡ record { posts = 2; delays = 1 ∷ []; raised = false }
unfolding report_platform_usage
two_posts = refl

-- the base has no port and the target the default one
abbrev parse : String → Option ParseResult
parse url = some (record {
  scheme = "https";
  hostname = some "api.otari.ai";
  port = if str_eq url "base" then no_port else port 443;
  path = if str_eq url "base" then "/v1/" else "/v1/search";
})

web_search_url-IsTrusted_example :
    (base : String) × (some "base" ≡ some base)
    × (base ≢ "")
    × IsTrusted (parse base) (parse "https://api.otari.ai:443/v1/search")
unfolding web_search_url_targets_platform normalized_origin
web_search_url-IsTrusted_example =
    web_search_url-IsTrusted parse "https://api.otari.ai:443/v1/search" (some "base") refl

abbrev limited : Request → Posted
limited request = response (record { status_code = 429; json = none; retry_after = some "30" })

resolve_platform-Answers_example :
    Answers
      (limited (credentials_request "https://p/" "t" "openai:gpt"))
      (resolve_platform_credentials python limited (some "https://p/") "t" "openai:gpt")
    × Answers
        (limited (mcp_servers_request "https://p/" "t" []))
        (resolve_platform_mcp_servers (λ url token. true) limited (some "https://p/") "t" [])
    × Answers
        (limited (web_search_request "https://p/" "t"))
        (resolve_platform_web_search limited (some "https://p/") "t")
resolve_platform-Answers_example =
    resolve_platform-Answers python (λ url token. true) limited "https://p/" "t" "openai:gpt" []
      refl

colon_first : split_model_selector "a/b:c" ≡ (some "a/b", "c")
unfolding split_model_selector
colon_first = refl

joined : platform_url "https://p//" "/gateway/usage" ≡ "https://p/gateway/usage"
unfolding platform_url
joined = refl

bearer : extract_platform_user_token (λ s. s) (some "Bearer tok") ≡ resolved "tok"
unfolding extract_platform_user_token
bearer = refl
