-- ===== src/Pipeline/Rejected.antt =====
-- What `resolve_request_context` leaves reserved.
use mozilla_ai.Pipeline.Preamble.{
  normalize_raised, normalize_cancelled, drops, normalize_rejected, verified, not_verified,
  http_rejection, Settings, Prepared, Answer, goes_on, rejects, bill_if_any, bill_vision_side_call,
  bill_selector, bill_resolved, charge_side_call, side_call_entry, Moments, ChatRequest, Rejection,
  Gate, Normalized, Verified, normalized,
}
use mozilla_ai.RateLimit.{
  index_error, allowed, too_many_requests, RateLimitInfo, RateLimiter, Outcome,
}
use mozilla_ai.Pipeline.Users.{
  Billed, billed, master_key_error, no_api_key_error, no_user_error, forbidden_user_error,
}
use mozilla_ai.Common.{
  true, false, ℕ, String, refl, ap, ◌∙◌, Bool, Option, none, some, str_eq, string_eq, if_holds,
}
use mozilla_ai.Pipeline.{World, Logged, logged, log_raised, LogCall, or_zero}
use mozilla_ai.Pipeline.Logs.{Logs, log_usage-Logs}
use mozilla_ai.Budget.{ok, Result, ReservationHandle, Db, err}
use mozilla_ai.Budget.Held.{SameHeld, held}
use mozilla_ai.Budget.ReserveHeld.{Reserves, reserve_budget-Reserves}
use mozilla_ai.Budget.TopUp.{
  reconcile-SameHeld, Tops, refund-Reserves, increase-Reserves, Reserves-then,
}
use mozilla_ai.Selector.{Config, ResolvedProvider, resolve_provider_selector}
use mozilla_ai.Streaming.{CompletionUsage}
use mozilla_ai.Budget.Normalize.{normalize_strategy}
use mozilla_ai.Pipeline.Context.{
  resolve_request_context, unless_cancelled, after_bill, after_normalized, normalize_if_any,
  refund_and, after_verified, gated, after_reserve, after_limit, after_billed, after_top_up,
  setup_rejection,
}
use mozilla_ai.Pricing.{ModelPricing, pricing_required_but_missing}

-- A preparation has what its handle says reserved for the user, also one that a cancellation drops,
-- and a rejection nothing.
abbrev pub LeavesHeld : World → Answer Prepared × World → Type 0
LeavesHeld w (goes_on p, w') = Reserves p.user_id w.db (ok p.reservation, w'.db)
LeavesHeld w (rejects r, w') = SameHeld w.db w'.db
LeavesHeld w (drops p, w') = Reserves p.user_id w.db (ok p.reservation, w'.db)

module _ {X : Type 0} (config : Config X) (settings : Settings) where
  charge-SameHeld :
      (user_id : String) (w : World) (cost : Option ℕ) (l : Logged × World)
      → Logs w cost l
      → SameHeld w.db (charge_side_call config settings user_id l).1.db
  charge-SameHeld user_id w cost (log_raised exc, w') logs other = ap (held other) logs
  charge-SameHeld user_id w cost (logged c, w') logs other =
      reconcile-SameHeld user_id (normalize_strategy settings.budget_strategy) (or_zero c) w'.db
        other
      ∙ ap (held other) logs.1

  bill_resolved-SameHeld :
      (call : LogCall) (api_key_id : Option String) (user_id endpoint : String)
      (usage : CompletionUsage) (r : Option (ResolvedProvider X)) (w : World)
      → SameHeld w.db
          (bill_resolved config settings call api_key_id user_id endpoint usage r w).1.db
  bill_resolved-SameHeld call api_key_id user_id endpoint usage none w = λ other. refl
  bill_resolved-SameHeld call api_key_id user_id endpoint usage (some r) w =
      charge-SameHeld user_id w _ _
        (log_usage-Logs call (side_call_entry api_key_id user_id endpoint usage r) w)

  bill_selector-SameHeld :
      (call : LogCall) (api_key_id : Option String) (user_id endpoint : String)
      (usage : CompletionUsage) (selector : Option String) (w : World)
      → SameHeld w.db
          (bill_selector config settings call api_key_id user_id endpoint usage selector w).1.db
  bill_selector-SameHeld call api_key_id user_id endpoint usage none w = λ other. refl
  bill_selector-SameHeld call api_key_id user_id endpoint usage (some selector) w =
      if_holds (λ (r : Bool × World). SameHeld w.db r.1.db) (str_eq selector "") _ _ (λ other. refl)
        (bill_resolved-SameHeld call api_key_id user_id endpoint usage
          (resolve_provider_selector config selector) w)

  bill_if_any-SameHeld :
      (call : LogCall) (api_key_id : Option String) (user_id endpoint : String)
      (usage : Option CompletionUsage) (w : World)
      → SameHeld w.db (bill_if_any config settings call api_key_id user_id endpoint usage w).1.db
  unfolding bill_vision_side_call
  bill_if_any-SameHeld call api_key_id user_id endpoint none w = λ other. refl
  bill_if_any-SameHeld call api_key_id user_id endpoint (some usage) w =
      bill_selector-SameHeld call api_key_id user_id endpoint usage settings.vision_describe_model w

module _ {X : Type 0} (config : Config X) (settings : Settings) (moments : Moments)
    (request : ChatRequest) (w : World) where
  refund_and-LeavesHeld :
      (rejection : Rejection) (uid : String) (h : ReservationHandle) (w' : World)
      → Reserves uid w.db (ok h, w'.db)
      → LeavesHeld w (refund_and config settings moments request rejection h w')
  refund_and-LeavesHeld rejection uid h w' reserves = refund-Reserves uid h w.db w'.db reserves

  unless_cancelled-LeavesHeld :
      (b : Bool) (p : Prepared) (w' : World) (rest : Answer Prepared × World)
      → Reserves p.user_id w.db (ok p.reservation, w'.db)
      → LeavesHeld w rest
      → LeavesHeld w (unless_cancelled config settings moments request b p w' rest)
  unless_cancelled-LeavesHeld true p w' rest reserves h = reserves
  unless_cancelled-LeavesHeld false p w' rest reserves h = h

  after_bill-LeavesHeld :
      (p : Prepared) (r : Bool × World)
      → Reserves p.user_id w.db (ok p.reservation, r.1.db)
      → LeavesHeld w (after_bill config settings moments request p r)
  after_bill-LeavesHeld p (true, w') reserves =
      refund_and-LeavesHeld (http_rejection 500) p.user_id p.reservation w' reserves
  after_bill-LeavesHeld p (false, w') reserves =
      unless_cancelled-LeavesHeld moments.cancelled_after_bill p w' _ reserves reserves

  after_top_up-LeavesHeld :
      (p : Prepared) (usage : Option CompletionUsage) (w' : World)
      (r : Result ReservationHandle × Db)
      → Reserves p.user_id w.db (ok p.reservation, w'.db)
      → Tops p.user_id w.db w'.db r
      → LeavesHeld w (after_top_up config settings moments request p usage w' r)
  after_top_up-LeavesHeld p usage w' (err e, db) reserves tops =
      refund_and-LeavesHeld (setup_rejection config settings moments request e) p.user_id
        p.reservation (record w' { db = db })
        (Reserves-then p.user_id p.reservation w.db w'.db db reserves tops)
  after_top_up-LeavesHeld p usage w' (ok h, db) reserves tops =
      let w'' = record w' { db = db } in
      let topped : Prepared = record p { reservation = h } in
      unless_cancelled-LeavesHeld moments.cancelled_after_top_up topped w'' _ tops (
        after_bill-LeavesHeld topped _ (
          Reserves-then p.user_id h w.db db _ tops (
            bill_if_any-SameHeld config settings moments.vision_call p.api_key_id p.user_id
              request.endpoint usage w'')))

  after_normalized-LeavesHeld :
      (pricing : Option ModelPricing) (estimate : ℕ) (p : Prepared) (w' : World) (n : Normalized)
      → Reserves p.user_id w.db (ok p.reservation, w'.db)
      → LeavesHeld w (after_normalized config settings moments request pricing estimate p w' n)
  after_normalized-LeavesHeld pricing estimate p w' (normalized chars usage) reserves =
      unless_cancelled-LeavesHeld moments.cancelled_before_top_up p w' _ reserves (
        after_top_up-LeavesHeld p usage w' _ reserves (
          increase-Reserves p.user_id p.reservation w.db w'.db moments.increase_env _
            (some request.model) settings.budget_strategy reserves))
  after_normalized-LeavesHeld pricing estimate p w' (normalize_rejected status) reserves =
      refund_and-LeavesHeld (http_rejection status) p.user_id p.reservation w' reserves
  after_normalized-LeavesHeld pricing estimate p w' normalize_raised reserves =
      refund_and-LeavesHeld (http_rejection 500) p.user_id p.reservation w' reserves
  after_normalized-LeavesHeld pricing estimate p w' normalize_cancelled reserves = reserves

  normalize_if_any-LeavesHeld :
      (normalize : Option (String → Gate → Normalized)) (gate : Gate)
      (pricing : Option ModelPricing) (estimate : ℕ) (p : Prepared) (w' : World)
      → Reserves p.user_id w.db (ok p.reservation, w'.db)
      → LeavesHeld w
          (normalize_if_any config settings moments request normalize gate pricing estimate p w')
  normalize_if_any-LeavesHeld none gate pricing estimate p w' reserves = reserves
  normalize_if_any-LeavesHeld (some normalize) gate pricing estimate p w' reserves =
      after_normalized-LeavesHeld pricing estimate p w' (normalize p.user_id gate) reserves

  module _ (normalize : Option (String → Gate → Normalized)) (api_key_id : Option String)
      (user_id : String) where
    after_reserve-LeavesHeld :
        (gate : Gate) (pricing : Option ModelPricing) (estimate : ℕ) (info : Option RateLimitInfo)
        (r : Result ReservationHandle × Db)
        → Reserves user_id w.db r
        → LeavesHeld w (
            after_reserve config settings moments request normalize gate pricing estimate api_key_id
              user_id info w r)
    after_reserve-LeavesHeld gate pricing estimate info (err e, db) same = same
    after_reserve-LeavesHeld gate pricing estimate info (ok h, db) reserves =
        if_holds (LeavesHeld w) (pricing_required_but_missing pricing settings.require_pricing) _ _
          (refund_and-LeavesHeld (http_rejection 402) user_id h (record w { db = db }) reserves)
          (normalize_if_any-LeavesHeld normalize gate pricing estimate _ (record w { db = db })
            reserves)

    gated-LeavesHeld :
        (info : Option RateLimitInfo)
        → LeavesHeld w (gated config settings moments request normalize api_key_id user_id info w)
    gated-LeavesHeld info = after_reserve-LeavesHeld _ _ _ info _ (
        reserve_budget-Reserves moments.reserve_env user_id _ (some request.model)
          settings.budget_strategy w.db)

    after_limit-LeavesHeld :
        (outcome : Option Outcome)
        → LeavesHeld w
            (after_limit config settings moments request normalize api_key_id user_id w outcome)
    after_limit-LeavesHeld none = gated-LeavesHeld none
    after_limit-LeavesHeld (some (allowed info)) = gated-LeavesHeld (some info)
    after_limit-LeavesHeld (some (too_many_requests retry_after)) = λ other. refl
    after_limit-LeavesHeld (some index_error) = λ other. refl

  after_billed-LeavesHeld :
      (normalize : Option (String → Gate → Normalized)) (api_key_id : Option String)
      (limiter : Option RateLimiter) (b : Billed)
      → let (answer, limiter', w') =
          after_billed config settings moments request normalize api_key_id limiter w b in
        LeavesHeld w (answer, w')
  after_billed-LeavesHeld normalize api_key_id limiter (billed user_id) =
      after_limit-LeavesHeld normalize api_key_id user_id _
  after_billed-LeavesHeld normalize api_key_id limiter master_key_error = λ other. refl
  after_billed-LeavesHeld normalize api_key_id limiter no_api_key_error = λ other. refl
  after_billed-LeavesHeld normalize api_key_id limiter no_user_error = λ other. refl
  after_billed-LeavesHeld normalize api_key_id limiter forbidden_user_error = λ other. refl

  after_verified-LeavesHeld :
      (normalize : Option (String → Gate → Normalized)) (limiter : Option RateLimiter)
      (v : Verified)
      → let (answer, limiter', w') =
          after_verified config settings moments request normalize limiter w v in
        LeavesHeld w (answer, w')
  after_verified-LeavesHeld normalize limiter (not_verified status) = λ other. refl
  after_verified-LeavesHeld normalize limiter (verified api_key is_master_key) =
      after_billed-LeavesHeld normalize _ limiter _

-- Where the preamble of a request without a platform is not cancelled before it has reserved nor in a
-- refund, a rejection leaves what is reserved for every active user as it was; a request that goes on
-- has exactly the estimate of its reservation added for its user, after the top-up too, and nothing
-- for the others; and one that is cancelled while its messages are normalised, while its reservation
-- is topped up, or before or after a side-call is billed leaves that estimate held too.
pub resolve_request_context-LeavesHeld :
    {X : Type 0} (config : Config X) (settings : Settings) (moments : Moments)
    (request : ChatRequest) (normalize : Option (String → Gate → Normalized)) (has_db : Bool)
    (key_check : Verified) (limiter : Option RateLimiter) (w : World)
    → let (answer, limiter', w') =
        resolve_request_context config settings moments request normalize has_db key_check limiter
          w in
      LeavesHeld w (answer, w')
unfolding resolve_request_context
resolve_request_context-LeavesHeld config settings moments request normalize true key_check limiter
      w =
    after_verified-LeavesHeld config settings moments request w normalize limiter key_check
resolve_request_context-LeavesHeld config settings moments request normalize false key_check limiter
      w =
    λ other. refl
