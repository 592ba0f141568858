-- ===== src/Pipeline/Context.antt =====
-- `resolve_request_context` of otari/src/gateway/api/routes/_pipeline.py without a platform. How the API
-- key is verified and how the attachments are normalised are arguments; a query for a price goes
-- through. A cancellation is modelled in the `try` after the reservation and nowhere else: not of the
-- calls before it, nor of a refund, nor between the log and the charge of a side-call.
use mozilla_ai.Pipeline.Preamble.{
  Settings, Rejection, http_rejection, budget_rejection, rate_rejection, other_rejection, Verified,
  verified, not_verified, Normalized, normalized, normalize_rejected, normalize_raised,
  normalize_cancelled, drops, ChatRequest, Moments, Prepared, Answer, goes_on, rejects, Gate,
  gate_of, bill_if_any,
}
use mozilla_ai.Common.{ℕ, String, Bool, true, false, Option, none, some, if◌then◌else◌, string_eq}
use mozilla_ai.Pipeline.{World, refund}
use mozilla_ai.Pipeline.Users.{
  ApiKey, Billed, billed, master_key_error, no_api_key_error, no_user_error, forbidden_user_error,
  resolve_user_id,
}
use mozilla_ai.Selector.{Config, resolve_provider_selector}
use mozilla_ai.Pricing.{ModelPricing, find_model_pricing, pricing_required_but_missing}
use mozilla_ai.Budget.{
  user_not_found, user_blocked, budget_exceeded, database_error, Db, Error, Result, ok, err,
  ReservationHandle,
}
use mozilla_ai.Budget.Reserve.{reserve_budget, increase_reservation}
use mozilla_ai.Budget.Cost.{estimate_cost}
use mozilla_ai.RateLimit.{
  RateLimiter, RateLimitInfo, Outcome, allowed, too_many_requests, index_error, check_rate_limit,
}
use mozilla_ai.Streaming.{CompletionUsage}
use mozilla_ai.Common.Int.{ℤ, pos, sub_ℕ}

module _ {X : Type 0} (config : Config X) (settings : Settings) (moments : Moments)
    (request : ChatRequest) where
  abbrev pub refund_and : Rejection → ReservationHandle → World → Answer Prepared × World
  refund_and rejection h w = (rejects rejection, refund h w)

  -- an error of the database is no HTTPException
  abbrev pub setup_rejection : Error → Rejection
  setup_rejection user_not_found = budget_rejection user_not_found
  setup_rejection user_blocked = budget_rejection user_blocked
  setup_rejection budget_exceeded = budget_rejection budget_exceeded
  setup_rejection database_error = http_rejection 500

  -- a CancelledError passes both handlers
  abbrev pub unless_cancelled :
      Bool → Prepared → World → Answer Prepared × World → Answer Prepared × World
  unless_cancelled is_cancelled prepared w rest = if is_cancelled then (drops prepared, w) else rest

  abbrev pub after_bill : Prepared → Bool × World → Answer Prepared × World
  after_bill prepared (true, w) = refund_and (http_rejection 500) prepared.reservation w
  after_bill prepared (false, w) =
      unless_cancelled moments.cancelled_after_bill prepared w (goes_on prepared, w)

  abbrev pub after_top_up :
      Prepared
      → Option CompletionUsage
      → World
      → Result ReservationHandle × Db
      → Answer Prepared × World
  after_top_up prepared usage w (err e, db) =
      refund_and (setup_rejection e) prepared.reservation (record w { db = db })
  after_top_up prepared usage w (ok h, db) =
      let topped : Prepared = record prepared { reservation = h } in
      unless_cancelled moments.cancelled_after_top_up topped (record w { db = db })
        (after_bill topped (
          bill_if_any config settings moments.vision_call prepared.api_key_id prepared.user_id
            request.endpoint usage (record w { db = db })))

  abbrev pub estimate_of : Option ModelPricing → ℤ → ℕ
  estimate_of pricing chars =
      estimate_cost pricing chars request.estimate_max_output_tokens
        settings.budget_estimate_default_output_tokens

  abbrev pub after_normalized :
      Option ModelPricing → ℕ → Prepared → World → Normalized → Answer Prepared × World
  after_normalized pricing estimate prepared w (normalized chars usage) =
      unless_cancelled moments.cancelled_before_top_up prepared w (
        after_top_up prepared usage w (
          increase_reservation moments.increase_env prepared.reservation
            (sub_ℕ (estimate_of pricing chars) estimate) (some request.model)
            settings.budget_strategy w.db))
  after_normalized pricing estimate prepared w (normalize_rejected status) =
      refund_and (http_rejection status) prepared.reservation w
  after_normalized pricing estimate prepared w normalize_raised =
      refund_and (http_rejection 500) prepared.reservation w
  after_normalized pricing estimate prepared w normalize_cancelled = (drops prepared, w)

  abbrev pub normalize_if_any :
      Option (String → Gate → Normalized)
      → Gate
      → Option ModelPricing
      → ℕ
      → Prepared
      → World
      → Answer Prepared × World
  normalize_if_any none gate pricing estimate prepared w = (goes_on prepared, w)
  normalize_if_any (some normalize_messages) gate pricing estimate prepared w =
      after_normalized pricing estimate prepared w (normalize_messages prepared.user_id gate)

  abbrev pub after_reserve :
      Option (String → Gate → Normalized)
      → Gate
      → Option ModelPricing
      → ℕ
      → Option String
      → String
      → Option RateLimitInfo
      → World
      → Result ReservationHandle × Db
      → Answer Prepared × World
  after_reserve normalize gate pricing estimate api_key_id user_id info w (err e, db) =
      (rejects (budget_rejection e), record w { db = db })
  after_reserve normalize gate pricing estimate api_key_id user_id info w (ok h, db) =
      let prepared : Prepared = record {
        api_key_id = api_key_id;
        user_id = user_id;
        rate_limit_info = info;
        reservation = h;
      } in
      if pricing_required_but_missing pricing settings.require_pricing
      then refund_and (http_rejection 402) h (record w { db = db })
      else normalize_if_any normalize gate pricing estimate prepared (record w { db = db })

  -- from the rate limit on
  abbrev pub gated :
      Option (String → Gate → Normalized)
      → Option String
      → String
      → Option RateLimitInfo
      → World
      → Answer Prepared × World
  gated normalize api_key_id user_id info w =
      let gate = gate_of request.model (resolve_provider_selector config request.model) in
      let pricing =
        find_model_pricing moments.gate_prices gate.instance_name gate.model moments.gate_now in
      let estimate = estimate_of pricing request.estimate_prompt_chars in
      after_reserve normalize gate pricing estimate api_key_id user_id info w (
        reserve_budget moments.reserve_env user_id (pos estimate) (some request.model)
          settings.budget_strategy w.db)

  abbrev pub after_limit :
      Option (String → Gate → Normalized)
      → Option String
      → String
      → World
      → Option Outcome
      → Answer Prepared × World
  after_limit normalize api_key_id user_id w none = gated normalize api_key_id user_id none w
  after_limit normalize api_key_id user_id w (some (allowed info)) =
      gated normalize api_key_id user_id (some info) w
  after_limit normalize api_key_id user_id w (some (too_many_requests retry_after)) =
      (rejects (rate_rejection retry_after), w)
  after_limit normalize api_key_id user_id w (some index_error) = (rejects other_rejection, w)

  abbrev pub after_billed :
      Option (String → Gate → Normalized)
      → Option String
      → Option RateLimiter
      → World
      → Billed
      → Answer Prepared × Option RateLimiter × World
  after_billed normalize api_key_id limiter w (billed user_id) =
      let (outcome, limiter') = check_rate_limit moments.now moments.wall user_id limiter in
      let (answer, w') = after_limit normalize api_key_id user_id w outcome in
      (answer, limiter', w')
  after_billed normalize api_key_id limiter w master_key_error =
      (rejects (http_rejection 400), limiter, w)
  after_billed normalize api_key_id limiter w no_api_key_error =
      (rejects (http_rejection 500), limiter, w)
  after_billed normalize api_key_id limiter w no_user_error =
      (rejects (http_rejection 500), limiter, w)
  after_billed normalize api_key_id limiter w forbidden_user_error =
      (rejects (http_rejection 403), limiter, w)

  abbrev pub key_id : Option ApiKey → Option String
  key_id none = none
  key_id (some key) = some key.id

  abbrev pub after_verified :
      Option (String → Gate → Normalized)
      → Option RateLimiter
      → World
      → Verified
      → Answer Prepared × Option RateLimiter × World
  after_verified normalize limiter w (not_verified status) =
      (rejects (http_rejection status), limiter, w)
  after_verified normalize limiter w (verified api_key is_master_key) =
      after_billed normalize (key_id api_key) limiter w (
        resolve_user_id request.user_id_from_request api_key is_master_key
          settings.reject_user_mismatch)

  -- `has_db` is whether there is a session
  unfoldable pub resolve_request_context :
      Option (String → Gate → Normalized)
      → Bool
      → Verified
      → Option RateLimiter
      → World
      → Answer Prepared × Option RateLimiter × World
  resolve_request_context normalize has_db key_check limiter w =
      if has_db
      then after_verified normalize limiter w key_check
      else (rejects (http_rejection 500), limiter, w)
