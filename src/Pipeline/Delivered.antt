-- ===== src/Pipeline/Delivered.antt =====
-- No report of a failed attempt is lost.
use mozilla_ai.Common.{
  ℕ, ◌+◌, ◌≡◌, refl, ap, ◌∙◌, Bool, not, ◌||◌, Option, none, some, List, [], ◌∷◌, ◌++◌, if_holds,
}
use mozilla_ai.Platform.{ResolvedAttempt, HttpException}
use mozilla_ai.Platform.Errors.{Upstream, ErrorClass}
use mozilla_ai.Platform.Attempts.{
  Runner, Ended, returns, raises, value_error, Report, error_report, success_report, Log, walk,
  is_single, run_platform_attempts, after_attempt, Attempted, result, http_raised,
  max_tool_iterations_exceeded, failed, fresh, log_call, report,
}
use mozilla_ai.Pipeline.Hybrid.{
  Queued, Answered, answers, answers_http, answers_value_error, answers_other, pending_of,
  flush_pending_usage_reports, run_platform_non_stream, after_runner, raised_after,
}

-- the flushes that were made, beside the world
pub record Recorded (T W : Type 0) : Type 0 where
  pub flushes : List (List T)
  pub world : W

abbrev pub recording :
    {T X W : Type 0} → (List T → W → Option X × W) → List T → Recorded T W → Option X × Recorded T W
recording gather reports rec =
    let (other, w) = gather reports rec.world in
    (other, record { flushes = rec.flushes ++ reports ∷ []; world = w })

abbrev pub start : {T W : Type 0} → W → Recorded T W
start w = record { flushes = []; world = w }

-- one flush of all reports, or none where there is none
abbrev pub flush_of : {T : Type 0} → List T → List (List T)
flush_of [] = []
flush_of (t ∷ ts) = (t ∷ ts) ∷ []

pub flushes-flush :
    {T X W : Type 0} (gather : List T → W → Option X × W) (ts : List T) (w : W)
    → (flush_pending_usage_reports (recording gather) ts (start w)).1.flushes ≡ flush_of ts
unfolding flush_pending_usage_reports
flushes-flush gather [] w = refl
flushes-flush gather (t ∷ ts) w = refl

module _ {Y R U : Type 0} (runner : Runner Y R U) where
  abbrev OnlyErrors : Log Y U → Type 0
  OnlyErrors log = pending_of log.reports ≡ log.reports

  -- where the runner raises, no success was reported
  abbrev Fails : Ended R × Log Y U → Type 0
  Fails (returns r, log) = Unit
  Fails (raises exc, log) = OnlyErrors log
  Fails (value_error, log) = Unit

  pending_of-append :
      (rs : List (Report U)) (attempt : ResolvedAttempt) (c : ErrorClass)
      → pending_of rs ≡ rs
      → pending_of (rs ++ error_report attempt c ∷ []) ≡ rs ++ error_report attempt c ∷ []
  pending_of-append rs attempt c h =
      pending_last rs ∙ ap (λ ps. ps ++ error_report attempt c ∷ []) h
    where
      pending_last :
          (xs : List (Report U))
          → pending_of (xs ++ error_report attempt c ∷ [])
            ≡ pending_of xs ++ error_report attempt c ∷ []
      pending_last [] = refl
      pending_last (error_report a d ∷ xs) = ap (λ ps. error_report a d ∷ ps) (pending_last xs)
      pending_last (success_report a u ∷ xs) = pending_last xs

  after_attempt-Fails :
      (attempt : ResolvedAttempt) (locked_in : Bool) (ended : Attempted R)
      (go_on : Upstream → Log Y U → Ended R × Log Y U) (log : Log Y U)
      → OnlyErrors log
      → ((exc : Upstream) (l : Log Y U) → OnlyErrors l → Fails (go_on exc l))
      → Fails (after_attempt runner attempt locked_in ended go_on log)
  after_attempt-Fails attempt locked_in (result r) go_on log h go = tt
  after_attempt-Fails attempt locked_in (http_raised exc) go_on log h go = h
  after_attempt-Fails attempt locked_in (max_tool_iterations_exceeded e) go_on log h go = h
  after_attempt-Fails attempt locked_in (failed exc) go_on log h go =
      let error_class = (runner.classify_error exc).1 in
      let more = pending_of-append log.reports attempt error_class h in
      if_holds Fails (locked_in || not (runner.classify_error exc).0) _ _ more
        (go exc (report (error_report attempt error_class) log) more)

  walk-Fails :
      (single : Bool) (before : ℕ) (last_exc : Option Upstream) (attempts : List ResolvedAttempt)
      (log : Log Y U)
      → OnlyErrors log
      → Fails (walk runner single before last_exc attempts log)
  walk-Fails single before last_exc [] log h = h
  walk-Fails single before last_exc (attempt ∷ attempts) log h =
      if_holds Fails (runner.is_provider attempt.provider) _ (value_error, log)
        (after_attempt-Fails attempt _ _ _ (log_call _ log) h
          (λ exc l k. walk-Fails single (before + 1) (some exc) attempts l k))
        tt

  module _ {X W : Type 0} (gather : List (Report U) → W → Option X × W) where
    -- every report that was queued runs in the background after an answer, or is in the one flush
    -- before an exception
    abbrev pub Delivers : Answered R X → Queued (Report U) (Recorded (Report U) W) → Type 0
    Delivers (answers r successes) q = q.world.flushes ≡ []
    Delivers (answers_http exc) q = q.world.flushes ≡ flush_of q.background_tasks
    Delivers answers_value_error q = q.world.flushes ≡ []
    Delivers (answers_other x) q = q.world.flushes ≡ flush_of q.background_tasks

    raised_after-Delivers :
        (exc : HttpException) (other : Option X) (q : Queued (Report U) (Recorded (Report U) W))
        → q.world.flushes ≡ flush_of q.background_tasks
        → Delivers (raised_after exc other) q
    raised_after-Delivers exc none q h = h
    raised_after-Delivers exc (some other) q h = h

    after_runner-Delivers :
        (ended : Ended R) (log : Log Y U) (w : W)
        → Fails (ended, log)
        → let (answer, q) = after_runner runner (recording gather) (ended, log) (start w) in
          Delivers answer q
    after_runner-Delivers (returns r) log w h = refl
    after_runner-Delivers (raises exc) log w h =
        raised_after-Delivers exc _ _
          (flushes-flush gather (pending_of log.reports) w ∙ ap flush_of h)
    after_runner-Delivers value_error log w h = refl

    -- For every runner and all attempts, a request that ends with an HTTPException, or with what
    -- breaks the flush, has flushed every report that it queued, all at once and only once; one that is
    -- answered has flushed none; one whose attempt names an unknown provider has flushed none either.
    pub run_platform_non_stream-Delivers :
        (attempts : List ResolvedAttempt) (w : W)
        → let (answer, q) = run_platform_non_stream runner (recording gather) attempts (start w) in
          Delivers answer q
    unfolding run_platform_non_stream run_platform_attempts
    run_platform_non_stream-Delivers [] w = refl
    run_platform_non_stream-Delivers (attempt ∷ attempts) w =
        after_runner-Delivers
          (walk runner (is_single (attempt ∷ attempts)) 0 none (attempt ∷ attempts) fresh).0
          (walk runner (is_single (attempt ∷ attempts)) 0 none (attempt ∷ attempts) fresh).1 w
          (walk-Fails (is_single (attempt ∷ attempts)) 0 none (attempt ∷ attempts) fresh refl)
