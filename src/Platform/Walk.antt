-- ===== src/Platform/Walk.antt =====
-- Which attempt decides a request in `run_platform_attempts`.
use mathlib.Core.List.{append_assoc, append-nil}
use mozilla_ai.Common.{
  ℕ, suc, ◌+◌, ◌≤◌, ◌≡◌, refl, sym, ap, ◌∙◌, ◌⊎◌, inl, inr, Bool, true, false, not, ◌||◌, Option,
  none, some, List, [], ◌∷◌, ◌++◌, map, arith, if◌then◌else◌, length, string_eq, length-append,
}
use mozilla_ai.Platform.{ResolvedAttempt}
use mozilla_ai.Platform.Errors.{
  Upstream, ErrorClass, http_exception, provider_failure_http_exc, provider_error_detail,
}
use mozilla_ai.Platform.Attempts.{
  Runner, Ran, Attempted, result, http_raised, max_tool_iterations_exceeded, failed, Ended, returns,
  raises, Report, error_report, success_report, Log, walk, is_single, run_platform_attempts,
  completion_kwargs, terminal, fresh, report, log_call, after_attempt,
}
use mozilla_ai.Selector.{Entries}

-- an attempt that failed, with its exception and the class that was reported
pub record Fall : Type 0 where
  pub attempt : ResolvedAttempt
  pub exc : Upstream
  pub error_class : ErrorClass

abbrev pub attempts_of : List Fall → List ResolvedAttempt
attempts_of = map (λ f. f.attempt)

abbrev pub last_of : Option Upstream → List Fall → Option Upstream
last_of last_exc [] = last_exc
last_of last_exc (f ∷ fs) = last_of (some f.exc) fs

length-attempts_of : (fs : List Fall) → length (attempts_of fs) ≡ length fs
length-attempts_of [] = refl
length-attempts_of (f ∷ fs) = ap suc (length-attempts_of fs)

zero_add : (n : ℕ) → 0 + n ≡ n
zero_add n = omega arith

module _ {X R U : Type 0} (runner : Runner X R U) where
  abbrev pub calls_of : List Fall → List (Entries X)
  calls_of = map (λ f. completion_kwargs runner.base_request_fields f.attempt)

  -- each of them is of a known provider, and failed retryably without a lock-in
  abbrev pub Falls : ℕ → List Fall → Type 0
  Falls n [] = Unit
  Falls n (f ∷ fs) =
      (runner.is_provider f.attempt.provider ≡ true)
      × (runner.run_attempt n (completion_kwargs runner.base_request_fields f.attempt)
          ≡ record { locked_in = false; ended = failed f.exc })
      × (runner.classify_error f.exc ≡ (true, f.error_class))
      × Falls (n + 1) fs

module _ {U : Type 0} where
  abbrev pub errors_of : List Fall → List (Report U)
  errors_of = map (λ f. error_report f.attempt f.error_class)

module _ {X R U : Type 0} (runner : Runner X R U) where
  abbrev after : List Fall → Log X U → Log X U
  after fs log = record {
    calls = log.calls ++ calls_of runner fs;
    reports = log.reports ++ errors_of fs;
    successes = log.successes;
  }

  after-cons :
      (f : Fall) (fs : List Fall) (log : Log X U)
      → after fs (
          report
            (error_report f.attempt f.error_class)
            (log_call (completion_kwargs runner.base_request_fields f.attempt) log))
        ≡ after (f ∷ fs) log
  after-cons f fs log =
      rw
        (
          append_assoc log.calls (completion_kwargs runner.base_request_fields f.attempt ∷ [])
              (calls_of runner fs),
          append_assoc log.reports (error_report f.attempt f.error_class ∷ []) (errors_of fs),
        )
        refl

  walk-Falls :
      (single : Bool) (n : ℕ) (last_exc : Option Upstream) (fs : List Fall)
      (rest : List ResolvedAttempt) (log : Log X U)
      → Falls runner n fs
      → walk runner single n last_exc (attempts_of fs ++ rest) log
        ≡ walk runner single (n + length fs) (last_of last_exc fs) rest (after fs log)
  walk-Falls single n last_exc [] rest log h =
      rw (append-nil log.calls, append-nil log.reports)
        (ap (λ m. walk runner single m last_exc rest log) (omega arith))
  walk-Falls single n last_exc (f ∷ fs) rest log (provider, ran, class, h) =
      rw (provider, ran, class)
        (walk-Falls single (n + 1) (some f.exc) fs rest
            (report (error_report f.attempt f.error_class)
              (log_call (completion_kwargs runner.base_request_fields f.attempt) log))
            h
          ∙ rw (after-cons f fs log) (
              ap (λ m. walk runner single m (last_of (some f.exc) fs) rest (after (f ∷ fs) log))
                (omega arith)))

-- what an attempt decides, where it is not passed over: the end of the request, the reports that are
-- added, and the attempts that `on_success` is called with
pub record Decision (R U : Type 0) : Type 0 where
  pub end : Ended R
  pub reports : List (Report U)
  pub successes : List ResolvedAttempt

abbrev pub decided :
    {R U : Type 0}
    → (R → U)
    → (Upstream → Bool × ErrorClass)
    → ResolvedAttempt
    → Attempted R
    → Decision R U
decided extract_usage classify attempt (result r) = record {
  end = returns r;
  reports = success_report attempt (extract_usage r) ∷ [];
  successes = attempt ∷ [];
}
decided extract_usage classify attempt (http_raised exc) = record {
  end = raises exc;
  reports = [];
  successes = [];
}
decided extract_usage classify attempt (max_tool_iterations_exceeded e) = record {
  end = raises (http_exception 422 e);
  reports = [];
  successes = [];
}
decided extract_usage classify attempt (failed exc) = record {
  end = raises (provider_failure_http_exc exc provider_error_detail);
  reports = error_report attempt (classify exc).1 ∷ [];
  successes = [];
}

-- it is not passed over: a failure is locked in or not retryable
abbrev pub Decides : {R : Type 0} → (Upstream → Bool × ErrorClass) → Bool → Attempted R → Type 0
Decides classify locked_in (result r) = Unit
Decides classify locked_in (http_raised exc) = Unit
Decides classify locked_in (max_tool_iterations_exceeded e) = Unit
Decides classify locked_in (failed exc) = (locked_in ≡ true) ⊎ ((classify exc).0 ≡ false)

if_stops :
    {A : Type 0} (locked_in retryable : Bool) (x y : A)
    → (locked_in ≡ true) ⊎ (retryable ≡ false)
    → (if locked_in || not retryable then x else y) ≡ x
if_stops locked_in retryable x y (inl h) = rw h refl
if_stops true retryable x y (inr h) = refl
if_stops false retryable x y (inr h) = rw h refl

module _ {X R U : Type 0} (runner : Runner X R U) where
  abbrev pub log_of : List Fall → ResolvedAttempt → Decision R U → Log X U
  log_of fs attempt decision = record {
    calls = calls_of runner fs ++ completion_kwargs runner.base_request_fields attempt ∷ [];
    reports = errors_of fs ++ decision.reports;
    successes = decision.successes;
  }

  after_attempt-Decides :
      (fs : List Fall) (attempt : ResolvedAttempt) (locked_in : Bool) (ended : Attempted R)
      (go_on : Upstream → Log X U → Ended R × Log X U)
      → Decides runner.classify_error locked_in ended
      → after_attempt runner attempt locked_in ended go_on
          (log_call (completion_kwargs runner.base_request_fields attempt) (after runner fs fresh))
        ≡ (
          (decided runner.extract_usage runner.classify_error attempt ended).end,
          log_of fs attempt (decided runner.extract_usage runner.classify_error attempt ended),
        )
  after_attempt-Decides fs attempt locked_in (result r) go_on h = refl
  after_attempt-Decides fs attempt locked_in (http_raised exc) go_on h =
      rw (append-nil (errors_of {U = U} fs)) refl
  after_attempt-Decides fs attempt locked_in (max_tool_iterations_exceeded e) go_on h =
      rw (append-nil (errors_of {U = U} fs)) refl
  after_attempt-Decides fs attempt locked_in (failed exc) go_on h =
      if_stops locked_in (runner.classify_error exc).0 _ _ h

  run-walk :
      (attempts : List ResolvedAttempt)
      → 1 ≤ length attempts
      → run_platform_attempts runner attempts
        ≡ walk runner (is_single attempts) 0 none attempts fresh
  unfolding run_platform_attempts
  run-walk [] h = absurd (omega (arith, h))
  run-walk (a ∷ attempts) h = refl

  -- Where every attempt before it, if there are any, is of a known provider and fails retryably
  -- without a lock-in, an attempt of a known provider whose call returns, raises an HTTPException, runs
  -- out of tool iterations, fails after a lock-in or fails in a way that is not retryable decides the
  -- request, whatever attempts follow: each attempt up to it is called once and in order, every failure
  -- among them is reported once and in order, and only a result counts as a success.
  pub run_platform_attempts-decided :
      (fs : List Fall) (attempt : ResolvedAttempt) (rest : List ResolvedAttempt) (ran : Ran R)
      → Falls runner 0 fs
      → runner.is_provider attempt.provider ≡ true
      → runner.run_attempt (length fs) (completion_kwargs runner.base_request_fields attempt) ≡ ran
      → Decides runner.classify_error ran.locked_in ran.ended
      → run_platform_attempts runner (attempts_of fs ++ attempt ∷ rest) ≡ (
        (decided runner.extract_usage runner.classify_error attempt ran.ended).end,
        log_of fs attempt (decided runner.extract_usage runner.classify_error attempt ran.ended),
      )
  run_platform_attempts-decided fs attempt rest ran falls provider ends decides =
      run-walk (attempts_of fs ++ attempt ∷ rest)
        (omega (arith, length-append (attempts_of fs) (attempt ∷ rest)))
      ∙ (walk-Falls runner _ 0 none fs (attempt ∷ rest) fresh falls
          ∙ rw (zero_add (length fs), provider, ends)
              (after_attempt-Decides fs attempt ran.locked_in ran.ended _ decides))

  -- Where every attempt, one or more, is of a known provider and fails retryably without a lock-in, each
  -- is called and reported once, in order, none counts as a success, and the request ends with the
  -- exception for the last failure.
  pub run_platform_attempts-exhausted :
      (fs : List Fall)
      → Falls runner 0 fs
      → 1 ≤ length fs
      → run_platform_attempts runner (attempts_of fs) ≡ (
        raises (terminal (is_single (attempts_of fs)) (last_of none fs)),
        record { calls = calls_of runner fs; reports = errors_of fs; successes = [] },
      )
  run_platform_attempts-exhausted fs falls some_attempt =
      run-walk (attempts_of fs) (omega (arith, length-attempts_of fs, some_attempt))
      ∙ (ap (λ xs. walk runner (is_single (attempts_of fs)) 0 none xs fresh)
            (sym (append-nil (attempts_of fs)))
          ∙ walk-Falls runner (is_single (attempts_of fs)) 0 none fs [] fresh falls)
