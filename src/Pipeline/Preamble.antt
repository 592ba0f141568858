-- ===== src/Pipeline/Preamble.antt =====
-- What `resolve_request_context` of otari/src/gateway/api/routes/_pipeline.py is given and answers, and
-- `_bill_vision_side_call`.
use mozilla_ai.Common.{
  ℕ, String, Bool, true, false, Option, none, some, List, if◌then◌else◌, str_eq, string_eq,
}
use mozilla_ai.Pipeline.{World, LogCall, Logged, logged, log_raised, Entry, log_usage, or_zero}
use mozilla_ai.Pipeline.Users.{ApiKey}
use mozilla_ai.Selector.{Config, ResolvedProvider, resolve_provider_selector}
use mozilla_ai.Pricing.{PriceSource}
use mozilla_ai.Budget.{Error, Env, ReservationHandle}
use mozilla_ai.Budget.Normalize.{normalize_strategy}
use mozilla_ai.Budget.Reserve.{reconcile_reservation, no_reservation}
use mozilla_ai.RateLimit.{RateLimitInfo}
use mozilla_ai.Streaming.{CompletionUsage}
use mozilla_ai.Common.Int.{ℤ, pos}

pub record Settings : Type 0 where
  pub require_pricing : Bool
  pub reject_user_mismatch : Bool
  pub budget_estimate_default_output_tokens : ℤ
  pub budget_strategy : Option (List ℕ)
  pub vision_describe_model : Option String

-- what raises: an error of the adapter or another HTTPException, by its status, an error of the
-- budget, a 429 with its Retry-After, or an exception of another class
pub data Rejection : Type 0 where
  http_rejection : ℕ → Rejection
  budget_rejection : Error → Rejection
  rate_rejection : ℕ → Rejection
  other_rejection : Rejection

-- how `verify_api_key_or_master_key` ends
pub data Verified : Type 0 where
  verified : Option ApiKey → Bool → Verified
  not_verified : ℕ → Verified

-- how `normalize_messages` ends: the number of characters and the usage of a vision side-call, an
-- HTTPException of a status, another exception, or a CancelledError, which is no `Exception`
pub data Normalized : Type 0 where
  normalized : ℤ → Option CompletionUsage → Normalized
  normalize_rejected : ℕ → Normalized
  normalize_raised : Normalized
  normalize_cancelled : Normalized

pub record ChatRequest : Type 0 where
  pub model : String
  pub endpoint : String
  pub user_id_from_request : Option String
  pub estimate_prompt_chars : ℤ
  pub estimate_max_output_tokens : Option ℤ

-- what the calls meet: the clocks of the limiter, the prices at the gate, and the surroundings of the
-- reservation, of its top-up and of the log of a side-call; and whether the request is cancelled while
-- the reservation is topped up, before or after that is committed, or at the end of the billing
pub record Moments : Type 0 where
  pub now : ℕ
  pub wall : ℕ
  pub gate_prices : PriceSource
  pub gate_now : ℕ
  pub reserve_env : Env
  pub increase_env : Env
  pub vision_call : LogCall
  pub cancelled_before_top_up : Bool
  pub cancelled_after_top_up : Bool
  pub cancelled_after_bill : Bool

pub record Prepared : Type 0 where
  pub api_key_id : Option String
  pub user_id : String
  pub rate_limit_info : Option RateLimitInfo
  pub reservation : ReservationHandle

-- a CancelledError is raised after the reservation, and drops what was prepared
pub data Answer (A : Type 0) : Type 0 where
  goes_on : A → Answer A
  rejects : Rejection → Answer A
  drops : A → Answer A

-- the instance, the implementation and the model that the gate looks at
pub record Gate : Type 0 where
  pub instance_name : Option String
  pub provider : Option String
  pub model : String

module _ {X : Type 0} where
  abbrev pub gate_of : String → Option (ResolvedProvider X) → Gate
  gate_of model none = record { instance_name = none; provider = none; model = model }
  gate_of model (some r) = record {
    instance_name = some r.instance_name;
    provider = some r.provider;
    model = r.model;
  }

  abbrev pub side_call_entry :
      Option String → String → String → CompletionUsage → ResolvedProvider X → Entry
  side_call_entry api_key_id user_id endpoint usage r = record {
    api_key_id = api_key_id;
    model = r.model;
    provider = some r.instance_name;
    endpoint = endpoint;
    user_id = some user_id;
    response_usage = none;
    usage_override = some usage;
    error = none;
    cost_override = none;
  }

module _ {X : Type 0} (config : Config X) (settings : Settings) where
  -- the cost of the side-call goes to `spend` by a handle that holds nothing
  abbrev pub charge_side_call : String → Logged × World → Bool × World
  charge_side_call user_id (log_raised exc, w) = (true, w)
  charge_side_call user_id (logged cost, w) = (
    false,
    record w {
      db =
          reconcile_reservation
            (no_reservation user_id (normalize_strategy settings.budget_strategy))
            (pos (or_zero cost)) w.db;
    },
  )

  abbrev pub bill_resolved :
      LogCall
      → Option String
      → String
      → String
      → CompletionUsage
      → Option (ResolvedProvider X)
      → World
      → Bool × World
  bill_resolved call api_key_id user_id endpoint usage none w = (false, w)
  bill_resolved call api_key_id user_id endpoint usage (some r) w =
      charge_side_call user_id
        (log_usage call (side_call_entry api_key_id user_id endpoint usage r) w)

  abbrev pub bill_selector :
      LogCall
      → Option String
      → String
      → String
      → CompletionUsage
      → Option String
      → World
      → Bool × World
  bill_selector call api_key_id user_id endpoint usage none w = (false, w)
  bill_selector call api_key_id user_id endpoint usage (some selector) w =
      if str_eq selector ""
      then (false, w)
      else bill_resolved call api_key_id user_id endpoint usage
          (resolve_provider_selector config selector) w

  -- `_bill_vision_side_call`: whether it raises, and the world after it
  unfoldable pub bill_vision_side_call :
      LogCall → Option String → String → String → CompletionUsage → World → Bool × World
  bill_vision_side_call call api_key_id user_id endpoint usage w =
      bill_selector call api_key_id user_id endpoint usage settings.vision_describe_model w

  abbrev pub bill_if_any :
      LogCall → Option String → String → String → Option CompletionUsage → World → Bool × World
  bill_if_any call api_key_id user_id endpoint none w = (false, w)
  bill_if_any call api_key_id user_id endpoint (some usage) w =
      bill_vision_side_call call api_key_id user_id endpoint usage w
