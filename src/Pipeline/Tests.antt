-- ===== src/Pipeline/Tests.antt =====
-- Requests and streams of a user with an open reservation.
use mozilla_ai.RateLimit.{check_rate_limit, RateLimiter}
use mozilla_ai.Pipeline.Preamble.{
  Settings, Moments, ChatRequest, Gate, Normalized, normalized, normalize_cancelled, Answer,
  Prepared, verified, rejects, budget_rejection,
}
use mozilla_ai.Pipeline.Context.{resolve_request_context}
use mozilla_ai.Pipeline.Rejected.{LeavesHeld, resolve_request_context-LeavesHeld}
use mozilla_ai.Pipeline.Users.{ApiKey, resolve_user_id, billed, forbidden_user_error}
use mozilla_ai.Selector.{
  Config, value_error, resolve_provider_selector, split_selector, provider_instance_type,
  get_provider_kwargs,
}
use mozilla_ai.Budget.{Env, budget_exceeded, ReservationHandle}
use mozilla_ai.Common.Int.{pos}
use mozilla_ai.Common.{
  ℕ, ◌≡◌, refl, true, false, none, some, List, [], ◌∷◌, string_eq, Option, String,
}
use mozilla_ai.Pipeline.{World, LogCall, RequestContext, Target}
use mozilla_ai.Streaming.{
  StreamFormat, CompletionUsage, merge_usage, merge_usage, no_usage_yet, no_usage_yet,
}
use mozilla_ai.Streaming.Generator.{
  Call, Consumer, resumed, closed, exhausted, Run, streaming_generator, streaming_generator,
  consume, consume, completed, completed, cancellation, cancellation,
}
use mozilla_ai.Pipeline.Requests.{raises, other_exception, run_standalone_non_stream, Adapter}
use mozilla_ai.Pipeline.Streams.{
  Setup, stream_response, Cut, Cut, not_cut, not_cut, before_commit, before_commit,
}
use mozilla_ai.Pipeline.Settled.{SettledBy, run_standalone_non_stream-SettledBy}
use mozilla_ai.Pipeline.Logs.{charge}
use mozilla_ai.Pipeline.StreamSettled.{stream_response-settles, settlement}
use mozilla_ai.Budget.Normalize.{cas}
use mozilla_ai.Pricing.{lookup_error, ModelPricing}

abbrev handle_of_alice : ReservationHandle
handle_of_alice = record { user_id = "alice"; estimate = 40; reserved = true; strategy = cas }

abbrev world : World
world = record {
  db = record {
    users =
        (
          "alice",
          record {
            spend = 60;
            reserved = 40;
            budget_id = some "team";
            budget_started_at = some 0;
            next_budget_reset_at = none;
            blocked = false;
            deleted_at = none;
          },
        )
        ∷ [];
    budgets = ("team", record { max_budget = some 100; budget_duration_sec = none }) ∷ [];
    reset_logs = [];
    exceeded = 0;
  };
  usage_logs = [];
}

abbrev call : LogCall
call = record {
  now = 100;
  prices = record {
    rows = [];
    default_pricing_enabled = false;
    calc_price = λ p m t. lookup_error;
  };
  query_error = none;
  put_error = none;
}

abbrev ctx : RequestContext
ctx = record {
  has_db = true;
  api_key_id = some "key";
  user_id = some "alice";
  reservation = some handle_of_alice;
}

abbrev target : Target
target = record { model = "gpt"; provider = some "openai"; endpoint = "/v1/chat/completions" }

abbrev usage : CompletionUsage
usage = record {
  prompt_tokens = 3;
  completion_tokens = 5;
  total_tokens = 8;
  cached = none;
  gateway = none;
}

abbrev adapter : Adapter ℕ
adapter = record { extract_usage = λ r. some usage; log_success_without_usage = false }

run_standalone_non_stream-SettledBy_example :
    SettledBy handle_of_alice
      (λ r. charge call target (some usage))
      world
      (run_standalone_non_stream ctx target adapter call call
        (raises (other_exception "boom"))
        world)
run_standalone_non_stream-SettledBy_example =
    run_standalone_non_stream-SettledBy ctx target handle_of_alice adapter call call
      (raises (other_exception "boom")) world refl refl refl

abbrev setup : Setup
setup = record {
  ctx = ctx;
  target = target;
  platform_active = false;
  stream_missing_usage_policy = "charge_estimate";
}

abbrev fmt : StreamFormat
fmt = record { done_marker = "[DONE]"; error_payload = "error"; yield_done_on_error = true }

-- no callback is cancelled
abbrev uncut : ℕ → Cut
uncut n = not_cut

abbrev chunks : List (ℕ × Consumer)
chunks = (0, resumed) ∷ (1, closed) ∷ []

abbrev streamed : Run × World
streamed =
    stream_response setup call fmt (λ n. "chunk") (λ n. some usage) uncut chunks (exhausted resumed)
      world

stream_response-settles_example :
    (c : Call) × (streamed.0.called ≡ c ∷ [])
    × (streamed.1.db ≡ settlement setup call handle_of_alice c world.db)
stream_response-settles_example =
    stream_response-settles setup call handle_of_alice world refl refl refl refl refl uncut refl fmt
      (λ n. "chunk") (λ n. some usage) chunks (exhausted resumed)

-- A stream that is cut off while it is settled leaves its reservation held.
complete_cut_off :
    stream_response setup call {C = ℕ} fmt
      (λ n. "chunk")
      (λ n. some usage)
      (λ n. before_commit)
      ((0, resumed) ∷ [])
      (exhausted resumed)
      world
    ≡ (
      record {
        sent = "chunk" ∷ "[DONE]" ∷ [];
        called = completed (merge_usage no_usage_yet usage) ∷ [];
        ended = cancellation;
      },
      world,
    )
unfolding stream_response streaming_generator consume
complete_cut_off = refl

abbrev key : ApiKey
key = record { id = "key"; user_id = some "alice" }

own_user : resolve_user_id (some "bob") (some key) false false ≡ billed "alice"
unfolding resolve_user_id
own_user = refl

other_user : resolve_user_id (some "bob") (some key) false true ≡ forbidden_user_error
unfolding resolve_user_id
other_user = refl

abbrev gpt_price : ModelPricing
gpt_price = record {
  model_key = "openai:gpt";
  effective_at = 0;
  input_price_per_million = 4;
  output_price_per_million = 1;
}

abbrev env : Env
env = record {
  now = 100;
  commits = true;
  prices = record call.prices { rows = gpt_price ∷ [] };
  split_model_provider = λ m. none;
}

abbrev config : Config ℕ
config = record {
  providers = ("openai", []) ∷ [];
  is_provider = λ name. true;
  split_model_provider = λ s. value_error;
  setup_vertex_environment = λ credentials project location. [];
}

abbrev settings : Settings
settings = record {
  require_pricing = true;
  reject_user_mismatch = true;
  budget_estimate_default_output_tokens = pos 0;
  budget_strategy = none;
  vision_describe_model = some "openai:gpt";
}

abbrev moments : Moments
moments = record {
  now = 0;
  wall = 0;
  gate_prices = env.prices;
  gate_now = 100;
  reserve_env = env;
  increase_env = env;
  vision_call = call;
  cancelled_before_top_up = false;
  cancelled_after_top_up = false;
  cancelled_after_bill = false;
}

abbrev request : ChatRequest
request = record {
  model = "openai:gpt";
  endpoint = "/v1/chat/completions";
  user_id_from_request = none;
  estimate_prompt_chars = pos 1;
  estimate_max_output_tokens = none;
}

-- the attachments expand the prompt past the budget, after a vision model was paid for them
abbrev expanded : Option (String → Gate → Normalized)
expanded = some (λ user_id gate. normalized (pos 100) (some usage))

abbrev idle : World
idle = record world {
  db = record world.db {
    users =
        (
          "alice",
          record {
            spend = 60;
            reserved = 0;
            budget_id = some "team";
            budget_started_at = some 0;
            next_budget_reset_at = none;
            blocked = false;
            deleted_at = none;
          },
        )
        ∷ [];
  };
}

abbrev prepared : Option (String → Gate → Normalized) → Answer Prepared × Option RateLimiter × World
prepared normalize =
    resolve_request_context config settings moments request normalize true
      (verified (some key) false) none idle

resolve_request_context-LeavesHeld_example :
    LeavesHeld idle ((prepared expanded).0, (prepared expanded).2)
resolve_request_context-LeavesHeld_example =
    resolve_request_context-LeavesHeld config settings moments request expanded true
      (verified (some key) false) none idle

abbrev cancelling : Option (String → Gate → Normalized)
cancelling = some (λ user_id gate. normalize_cancelled)

-- A client that goes away while its attachments are read leaves its reservation held.
left_held :
    (prepared cancelling).2.db.users
    ≡ (
      "alice",
      record {
        spend = 60;
        reserved = 4;
        budget_id = some "team";
        budget_started_at = some 0;
        next_budget_reset_at = none;
        blocked = false;
        deleted_at = none;
      },
    )
      ∷ []
unfolding resolve_request_context resolve_user_id resolve_provider_selector split_selector
    provider_instance_type get_provider_kwargs check_rate_limit
    mozilla_ai.Budget.Reserve.reserve_budget mozilla_ai.Budget.require_user
    mozilla_ai.Budget.get_active_user mozilla_ai.Budget.Normalize.normalize_strategy
    mozilla_ai.Budget.get_budget mozilla_ai.Budget.Reserve.reserve_within
    mozilla_ai.Budget.is_model_free mozilla_ai.Budget.Reserve.hold_below
    mozilla_ai.Budget.update_user mozilla_ai.Budget.Cost.estimate_cost
    mozilla_ai.Pricing.find_model_pricing mozilla_ai.Pricing.pricing_required_but_missing
left_held = refl

-- The top-up is refused, and the side-call that was made leaves neither a log nor a cost.
lost_side_call : prepared expanded ≡ (
  rejects (budget_rejection budget_exceeded),
  none,
  record idle { db = record idle.db { exceeded = 1 } },
)
unfolding resolve_request_context resolve_user_id resolve_provider_selector split_selector
    provider_instance_type get_provider_kwargs check_rate_limit
    mozilla_ai.Budget.Reserve.reserve_budget mozilla_ai.Budget.require_user
    mozilla_ai.Budget.get_active_user mozilla_ai.Budget.Normalize.normalize_strategy
    mozilla_ai.Budget.get_budget mozilla_ai.Budget.Reserve.reserve_within
    mozilla_ai.Budget.is_model_free mozilla_ai.Budget.Reserve.hold_below
    mozilla_ai.Budget.update_user mozilla_ai.Budget.Cost.estimate_cost
    mozilla_ai.Pricing.find_model_pricing mozilla_ai.Pricing.pricing_required_but_missing
    mozilla_ai.Budget.Reserve.increase_reservation mozilla_ai.Budget.Reserve.refund_reservation
lost_side_call = refl
