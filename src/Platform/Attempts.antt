-- ===== src/Platform/Attempts.antt =====
-- `run_platform_attempts` of otari/src/gateway/api/routes/_platform.py. A call of `run_attempt` is
-- known by how many went before it and by its keywords.
use mozilla_ai.Common.{
  ℕ, ◌+◌, String, Bool, true, false, not, ◌||◌, Option, none, some, List, [], ◌∷◌, ◌++◌,
  if◌then◌else◌, str_eq, string_eq,
}
use mozilla_ai.Platform.{ResolvedAttempt, HttpException}
use mozilla_ai.Platform.Errors.{
  Upstream, Class, timeout, network, plain, ErrorClass, http_exception, provider_failure_http_exc,
  provider_error_detail, provider_timeout_detail, all_providers_failed_detail,
  all_providers_timed_out_detail,
}
use mozilla_ai.Selector.{text, Entries}
use mozilla_ai.Common.Dict.{insert}
use Prim.Native.String.{◌++◌ as append}

-- how `run_attempt` ends
pub data Attempted (R : Type 0) : Type 0 where
  result : R → Attempted R
  http_raised : HttpException → Attempted R
  max_tool_iterations_exceeded : String → Attempted R
  failed : Upstream → Attempted R

-- `locked_in`: whether it called `on_first_response`
pub record Ran (R : Type 0) : Type 0 where
  pub locked_in : Bool
  pub ended : Attempted R

-- the end of the request; `LLMProvider(...)` raises a ValueError for an unknown name
pub data Ended (R : Type 0) : Type 0 where
  returns : R → Ended R
  raises : HttpException → Ended R
  value_error : Ended R

-- a call of `report_attempt_outcome`
pub data Report (U : Type 0) : Type 0 where
  error_report : ResolvedAttempt → ErrorClass → Report U
  success_report : ResolvedAttempt → U → Report U

-- the calls of `run_attempt`, `report_attempt_outcome` and `on_success`, in their order
pub record Log (X U : Type 0) : Type 0 where
  pub calls : List (Entries X)
  pub reports : List (Report U)
  pub successes : List ResolvedAttempt

pub record Runner (X R U : Type 0) : Type 0 where
  pub base_request_fields : Entries X
  pub is_provider : String → Bool
  pub run_attempt : ℕ → Entries X → Ran R
  pub extract_usage : R → U
  pub classify_error : Upstream → Bool × ErrorClass

abbrev pub received_empty_detail : String
received_empty_detail =
    "Internal error: run_platform_attempts received an empty attempts list — the caller should have raised a 502 'no resolvable provider' before reaching the runner"

abbrev pub timed_out_detail : Bool → String
timed_out_detail true = provider_timeout_detail
timed_out_detail false = all_providers_timed_out_detail

-- a failure that is no timeout
abbrev pub terminal_other : Bool → Upstream → HttpException
terminal_other true exc = provider_failure_http_exc exc provider_error_detail
terminal_other false exc = http_exception 502 all_providers_failed_detail

abbrev pub terminal_of : Bool → Class → Upstream → HttpException
terminal_of single timeout exc = http_exception 504 (timed_out_detail single)
terminal_of single network exc = terminal_other single exc
terminal_of single plain exc = terminal_other single exc

-- after the last attempt, by the exception that was seen last
unfoldable pub terminal : Bool → Option Upstream → HttpException
terminal single none = http_exception 502 all_providers_failed_detail
terminal single (some exc) = terminal_of single exc.class exc

module _ {X : Type 0} where
  -- `{**d, **e}`
  abbrev pub merged : Entries X → Entries X → Entries X
  merged d [] = d
  merged d ((k, v) ∷ e) = merged (insert k v d) e

  abbrev pub with_api_base : Option String → Entries X → Entries X
  with_api_base none kwargs = kwargs
  with_api_base (some api_base) kwargs =
      if str_eq api_base "" then kwargs else insert "api_base" (text api_base) kwargs

  unfoldable pub completion_kwargs : Entries X → ResolvedAttempt → Entries X
  completion_kwargs base_request_fields attempt =
      insert "model" (text (append (append attempt.provider ":") attempt.model)) (
        merged (with_api_base attempt.api_base (("api_key", text attempt.api_key) ∷ []))
          base_request_fields)

abbrev pub is_single : List ResolvedAttempt → Bool
is_single [] = true
is_single (_ ∷ []) = true
is_single (_ ∷ _ ∷ _) = false

module _ {X U : Type 0} where
  abbrev pub fresh : Log X U
  fresh = record { calls = []; reports = []; successes = [] }

  abbrev pub log_call : Entries X → Log X U → Log X U
  log_call kwargs log = record log { calls = log.calls ++ kwargs ∷ [] }

  abbrev pub report : Report U → Log X U → Log X U
  report r log = record log { reports = log.reports ++ r ∷ [] }

  abbrev pub succeed : ResolvedAttempt → U → Log X U → Log X U
  succeed attempt usage log = record log {
    reports = log.reports ++ success_report attempt usage ∷ [];
    successes = log.successes ++ attempt ∷ [];
  }

module _ {X R U : Type 0} (runner : Runner X R U) where
  -- the next attempt, where this one failed, may be retried and was not locked in
  abbrev pub after_failure :
      ResolvedAttempt
      → Upstream
      → Bool
      → Bool × ErrorClass
      → (Log X U → Ended R × Log X U)
      → Log X U
      → Ended R × Log X U
  after_failure attempt exc locked_in (retryable, error_class) go_on log =
      if locked_in || not retryable
      then (
        raises (provider_failure_http_exc exc provider_error_detail),
        report (error_report attempt error_class) log,
      )
      else go_on (report (error_report attempt error_class) log)

  abbrev pub after_attempt :
      ResolvedAttempt
      → Bool
      → Attempted R
      → (Upstream → Log X U → Ended R × Log X U)
      → Log X U
      → Ended R × Log X U
  after_attempt attempt locked_in (result r) go_on log =
      (returns r, succeed attempt (runner.extract_usage r) log)
  after_attempt attempt locked_in (http_raised exc) go_on log = (raises exc, log)
  after_attempt attempt locked_in (max_tool_iterations_exceeded e) go_on log =
      (raises (http_exception 422 e), log)
  after_attempt attempt locked_in (failed exc) go_on log =
      after_failure attempt exc locked_in (runner.classify_error exc) (go_on exc) log

  -- `before` calls have been made, and `last_exc` was seen last
  abbrev pub walk : Bool → ℕ → Option Upstream → List ResolvedAttempt → Log X U → Ended R × Log X U
  walk single before last_exc [] log = (raises (terminal single last_exc), log)
  walk single before last_exc (attempt ∷ attempts) log =
      let kwargs = completion_kwargs runner.base_request_fields attempt in
      let ran = runner.run_attempt before kwargs in
      if runner.is_provider attempt.provider
      then after_attempt attempt ran.locked_in ran.ended
          (λ exc. walk single (before + 1) (some exc) attempts) (log_call kwargs log)
      else (value_error, log)

  unfoldable pub run_platform_attempts : List ResolvedAttempt → Ended R × Log X U
  run_platform_attempts [] = (raises (http_exception 500 received_empty_detail), fresh)
  run_platform_attempts (attempt ∷ attempts) =
      walk (is_single (attempt ∷ attempts)) 0 none (attempt ∷ attempts) fresh
