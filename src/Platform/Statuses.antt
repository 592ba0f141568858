-- ===== src/Platform/Statuses.antt =====
-- The statuses and details that a client of the hybrid mode sees for failed attempts.
use mozilla_ai.Common.{
  ℕ, ◌+◌, String, ◌≡◌, refl, ◌⊎◌, inl, inr, Bool, true, false, not, ◌||◌, Option, none, some, List,
  [], ◌∷◌, IsIn, string_eq, ◌==◌, if_holds,
}
use mozilla_ai.Platform.{ResolvedAttempt, HttpException}
use mozilla_ai.Platform.Errors.{
  Upstream, Class, timeout, network, plain, http_exception, mapping_of, mapping_if_any, classify_by,
  classify_provider_error, upstream_status_code, or_bad_gateway, provider_failure_http_exc,
  provider_error_detail, provider_timeout_detail, provider_bad_request_detail,
  provider_model_not_found_detail, provider_credentials_detail, provider_rate_limited_detail,
  all_providers_failed_detail, all_providers_timed_out_detail, ErrorClass, one_of,
}
use mozilla_ai.Platform.Attempts.{
  Runner, Attempted, result, http_raised, max_tool_iterations_exceeded, failed, Ended, returns,
  raises, value_error, Log, walk, is_single, run_platform_attempts, terminal, terminal_of,
  terminal_other, timed_out_detail, after_failure, after_attempt, fresh,
}
use mozilla_ai.Selector.{Entries}

abbrev pub fixed_answers : List (ℕ × String)
fixed_answers =
    (400, provider_bad_request_detail)
    ∷ (404, provider_model_not_found_detail)
    ∷ (429, provider_rate_limited_detail)
    ∷ (502, provider_credentials_detail)
    ∷ (502, provider_error_detail)
    ∷ (502, all_providers_failed_detail)
    ∷ (504, provider_timeout_detail)
    ∷ (504, all_providers_timed_out_detail)
    ∷ []

-- an answer with a fixed detail, or that of the cap on tool iterations
abbrev pub IsSafe : HttpException → Type 0
IsSafe e = IsIn (e.status_code, e.detail) fixed_answers ⊎ (e.status_code ≡ 422)

abbrev pub EndsSafely : {R : Type 0} → Ended R → Type 0
EndsSafely (returns r) = Unit
EndsSafely (raises e) = IsSafe e
EndsSafely value_error = Unit

-- the dispatcher raises no HTTPException of its own
abbrev pub RaisesNoHttp : {R : Type 0} → Attempted R → Type 0
RaisesNoHttp (result r) = Unit
RaisesNoHttp (http_raised exc) = ⊥
RaisesNoHttp (max_tool_iterations_exceeded e) = Unit
RaisesNoHttp (failed exc) = Unit

abbrev MapsSafely : Option (ℕ × String) → Type 0
MapsSafely none = Unit
MapsSafely (some answer) = IsIn answer fixed_answers

mapping_of-MapsSafely : (code : ℕ) → MapsSafely (mapping_of code)
mapping_of-MapsSafely code =
    let limited =
      if_holds MapsSafely (code == 429) (some (429, provider_rate_limited_detail)) none
        (inr (inr (inl refl))) tt in
    let credentials =
      if_holds MapsSafely (one_of (401 ∷ 403 ∷ []) code) (some (502, provider_credentials_detail)) _
        (inr (inr (inr (inl refl)))) limited in
    let not_found =
      if_holds MapsSafely (code == 404) (some (404, provider_model_not_found_detail)) _
        (inr (inl refl)) credentials in
    if_holds MapsSafely (one_of (400 ∷ 422 ∷ []) code) (some (400, provider_bad_request_detail)) _
      (inl refl) not_found

mapping_if_any-MapsSafely : (code : Option ℕ) → MapsSafely (mapping_if_any code)
mapping_if_any-MapsSafely none = tt
mapping_if_any-MapsSafely (some code) = mapping_of-MapsSafely code

classify_by-MapsSafely : (class : Class) (code : Option ℕ) → MapsSafely (classify_by class code)
classify_by-MapsSafely timeout code = inr (inr (inr (inr (inr (inr (inl refl))))))
classify_by-MapsSafely network code = mapping_if_any-MapsSafely code
classify_by-MapsSafely plain code = mapping_if_any-MapsSafely code

or_bad_gateway-IsSafe :
    (mapping : Option (ℕ × String))
    → MapsSafely mapping
    → IsSafe (or_bad_gateway provider_error_detail mapping)
or_bad_gateway-IsSafe none h = inl (inr (inr (inr (inr (inl refl)))))
or_bad_gateway-IsSafe (some (code, detail)) h = inl h

provider_failure-IsSafe :
    (exc : Upstream) → IsSafe (provider_failure_http_exc exc provider_error_detail)
unfolding provider_failure_http_exc classify_provider_error
provider_failure-IsSafe exc =
    or_bad_gateway-IsSafe (classify_provider_error exc)
      (classify_by-MapsSafely exc.class (upstream_status_code exc))

all_failed-IsSafe : IsSafe (http_exception 502 all_providers_failed_detail)
all_failed-IsSafe = inl (inr (inr (inr (inr (inr (inl refl))))))

timed_out-IsSafe : (single : Bool) → IsSafe (http_exception 504 (timed_out_detail single))
timed_out-IsSafe true = inl (inr (inr (inr (inr (inr (inr (inl refl)))))))
timed_out-IsSafe false = inl (inr (inr (inr (inr (inr (inr (inr (inl refl))))))))

terminal_other-IsSafe : (single : Bool) (exc : Upstream) → IsSafe (terminal_other single exc)
terminal_other-IsSafe true exc = provider_failure-IsSafe exc
terminal_other-IsSafe false exc = all_failed-IsSafe

terminal_of-IsSafe :
    (single : Bool) (class : Class) (exc : Upstream) → IsSafe (terminal_of single class exc)
terminal_of-IsSafe single timeout exc = timed_out-IsSafe single
terminal_of-IsSafe single network exc = terminal_other-IsSafe single exc
terminal_of-IsSafe single plain exc = terminal_other-IsSafe single exc

terminal-IsSafe : (single : Bool) (last_exc : Option Upstream) → IsSafe (terminal single last_exc)
unfolding terminal
terminal-IsSafe single none = all_failed-IsSafe
terminal-IsSafe single (some exc) = terminal_of-IsSafe single exc.class exc

module _ {X R U : Type 0} (runner : Runner X R U) where
  abbrev AnswersSafely : Ended R × Log X U → Type 0
  AnswersSafely end = EndsSafely end.0

  after_failure-EndsSafely :
      (attempt : ResolvedAttempt) (exc : Upstream) (locked_in : Bool) (class : Bool × ErrorClass)
      (go_on : Log X U → Ended R × Log X U) (log : Log X U)
      → ((log' : Log X U) → AnswersSafely (go_on log'))
      → AnswersSafely (after_failure runner attempt exc locked_in class go_on log)
  after_failure-EndsSafely attempt exc locked_in class go_on log next =
      if_holds AnswersSafely (locked_in || not class.0) _ _ (provider_failure-IsSafe exc) (next _)

  after_attempt-EndsSafely :
      (attempt : ResolvedAttempt) (locked_in : Bool) (ended : Attempted R)
      (go_on : Upstream → Log X U → Ended R × Log X U) (log : Log X U)
      → RaisesNoHttp ended
      → ((exc : Upstream) (log' : Log X U) → AnswersSafely (go_on exc log'))
      → AnswersSafely (after_attempt runner attempt locked_in ended go_on log)
  after_attempt-EndsSafely attempt locked_in (result r) go_on log h next = tt
  after_attempt-EndsSafely attempt locked_in (http_raised exc) go_on log h next = elim h [ ]
  after_attempt-EndsSafely attempt locked_in (max_tool_iterations_exceeded e) go_on log h next =
      inr refl
  after_attempt-EndsSafely attempt locked_in (failed exc) go_on log h next =
      after_failure-EndsSafely attempt exc locked_in (runner.classify_error exc) (go_on exc) log
        (next exc)

  walk-EndsSafely :
      (single : Bool) (n : ℕ) (last_exc : Option Upstream) (attempts : List ResolvedAttempt)
      (log : Log X U)
      → ((m : ℕ) (kwargs : Entries X) → RaisesNoHttp (runner.run_attempt m kwargs).ended)
      → AnswersSafely (walk runner single n last_exc attempts log)
  walk-EndsSafely single n last_exc [] log h = terminal-IsSafe single last_exc
  walk-EndsSafely single n last_exc (attempt ∷ attempts) log h =
      if_holds AnswersSafely (runner.is_provider attempt.provider) _ _
        (after_attempt-EndsSafely attempt _ _ _ _ (h n _)
          (λ exc log'. walk-EndsSafely single (n + 1) (some exc) attempts log' h))
        tt

  -- Whatever the providers raise and however it is classified, a request with an attempt, whose
  -- attempts raise no HTTPException of their own, that ends with an HTTPException ends with one of
  -- eight pairs of a status and a fixed detail, with the statuses 400, 404, 429, 502 and 504, or with
  -- the 422 of the cap on tool iterations.
  pub run_platform_attempts-EndsSafely :
      (attempt : ResolvedAttempt) (attempts : List ResolvedAttempt)
      → ((m : ℕ) (kwargs : Entries X) → RaisesNoHttp (runner.run_attempt m kwargs).ended)
      → EndsSafely (run_platform_attempts runner (attempt ∷ attempts)).0
  unfolding run_platform_attempts
  run_platform_attempts-EndsSafely attempt attempts h =
      walk-EndsSafely (is_single (attempt ∷ attempts)) 0 none (attempt ∷ attempts) fresh h
