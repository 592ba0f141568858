-- ===== src/Pipeline/Logs.antt =====
-- The database and the cost that `log_usage` leaves.
use mozilla_ai.Common.{ℕ, String, ◌≡◌, refl, ◌⊎◌, inl, inr, Option, none, some, string_eq}
use mozilla_ai.Pipeline.{
  LogCall, Entry, World, Target, or_zero, Logged, log_with, or_else, log_usage, UsageLog, logged,
  log_raised, log_row, put_row, priced, tokens_of, after_query,
}
use mozilla_ai.Streaming.{CompletionUsage}
use mozilla_ai.Budget.Cost.{usage_cost}
use mozilla_ai.Pricing.{find_model_pricing}

-- the cost of a usage at the price in effect, 0 with no usage or no price
abbrev pub charge : LogCall → Target → Option CompletionUsage → ℕ
charge call target none = 0
charge call target (some u) = or_zero (
    usage_cost (find_model_pricing call.prices target.provider target.model call.now)
      u.prompt_tokens u.completion_tokens)

abbrev pub cost_logged : LogCall → Entry → Option CompletionUsage → Option ℕ
cost_logged call e none = or_else e.cost_override none
cost_logged call e (some u) = or_else e.cost_override (priced call e u)

-- A log leaves the database as it was, and returns the cost unless it raises.
abbrev pub Logs : World → Option ℕ → Logged × World → Type 0
Logs w cost (logged c, w') = (c ≡ cost) × (w'.db ≡ w.db)
Logs w cost (log_raised exc, w') = w'.db ≡ w.db

put_row-Logs : (e : Option String) (row : UsageLog) (w : World) → Logs w row.cost (put_row e row w)
put_row-Logs none row w = (refl, refl)
put_row-Logs (some exc) row w = refl

after_query-Logs :
    (q : Option String) (go_on : World → Logged × World) (w : World) (cost : Option ℕ)
    → Logs w cost (go_on w)
    → Logs w cost (after_query q go_on w)
after_query-Logs none go_on w cost h = h
after_query-Logs (some exc) go_on w cost h = refl

log_with-Logs :
    (call : LogCall) (e : Entry) (u : Option CompletionUsage) (w : World)
    → Logs w (cost_logged call e u) (log_with call e u w)
log_with-Logs call e none w = put_row-Logs call.put_error (log_row call e none none) w
log_with-Logs call e (some u) w =
    let row = log_row call e (some (tokens_of u)) (priced call e u) in
    after_query-Logs call.query_error (put_row call.put_error row) w row.cost
      (put_row-Logs call.put_error row w)

pub log_usage-Logs :
    (call : LogCall) (e : Entry) (w : World)
    → Logs w (cost_logged call e (or_else e.usage_override e.response_usage)) (log_usage call e w)
unfolding log_usage
log_usage-Logs call e w = log_with-Logs call e (or_else e.usage_override e.response_usage) w

abbrev pub DoesLog : Logged × World → Type 0
DoesLog (logged c, w) = Unit
DoesLog (log_raised exc, w) = ⊥

log_with-DoesLog :
    (call : LogCall) (e : Entry) (u : Option CompletionUsage) (w : World)
    → call.put_error ≡ none
    → call.query_error ≡ none
    → DoesLog (log_with call e u w)
log_with-DoesLog call e none w put query = rw put tt
log_with-DoesLog call e (some u) w put query = rw (query, put) tt

-- With no usage there is no query, and only the writer can raise.
pub log_usage-DoesLog :
    (call : LogCall) (e : Entry) (w : World)
    → call.put_error ≡ none
    → (call.query_error ≡ none) ⊎ (or_else e.usage_override e.response_usage ≡ none)
    → DoesLog (log_usage call e w)
unfolding log_usage
log_usage-DoesLog call e w put (inr no_usage) = rw (no_usage, put) tt
log_usage-DoesLog call e w put (inl query) =
    log_with-DoesLog call e (or_else e.usage_override e.response_usage) w put query
