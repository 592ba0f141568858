-- ===== src/Budget/Tests.antt =====
-- Runs of the budget operations, and their theorems at concrete databases.
use mozilla_ai.Common.{
  ℕ, ◌+◌, ◌≤◌, ◌≡◌, refl, true, false, none, some, List, [], ◌∷◌, arith, length, if◌then◌else◌,
}
use mozilla_ai.Budget.{
  User, Budget, Db, get_active_user, Env, require_user, get_budget, is_model_free, ok, err,
  update_user, user_blocked, budget_exceeded, next_reset,
}
use mozilla_ai.Pricing.{ModelPricing, lookup_error}
use mozilla_ai.Budget.Interleaving.{
  Txn, World, reserve_below, IsAccounted, run, step, run-IsAccounted, reset, settle, refund,
}
use mozilla_ai.Budget.Reserve.{
  reserve_budget, reserve_within, hold_below, has_room, reconcile_reservation, refund_reservation,
  reservation, hold_row,
}
use mozilla_ai.Budget.Normalize.{normalize_strategy, cas, for_update}
use mozilla_ai.Budget.Cost.{usage_cost, estimate_cost, cost-le-estimate}
use mozilla_ai.Budget.Validate.{cas_reset_user_budget}
use mozilla_ai.Budget.NoOverspend.{all_allowed, IsWithin, no_overspend}
use mozilla_ai.Common.Text.{codes}
use mozilla_ai.Common.Int.{pos}
use mozilla_ai.Budget.Admission.{effective, is_ok, reserve_decides}
use mozilla_ai.Budget.Resets.{after_reset, cas_reset_once}

abbrev alice : User
alice = record {
  spend = 60;
  reserved = 10;
  budget_id = some "team";
  budget_started_at = some 0;
  next_budget_reset_at = some 1000;
  blocked = false;
  deleted_at = none;
}

abbrev team : Budget
team = record { max_budget = some 100; budget_duration_sec = some 1000 }

abbrev db : Db
db = record {
  users = ("alice", alice) ∷ ("bob", record alice { blocked = true }) ∷ [];
  budgets = ("team", team) ∷ [];
  reset_logs = [];
  exceeded = 0;
}

abbrev at : ℕ → Env
at now = record {
  now = now;
  commits = true;
  prices = record {
    rows = [];
    default_pricing_enabled = false;
    calc_price = λ p m t. lookup_error;
  };
  split_model_provider = λ m. none;
}

padded : normalize_strategy (some (codes "  CAS ")) ≡ cas
unfolding normalize_strategy
padded = refl

blocked_user : (reserve_budget (at 5) "bob" (pos 1) none none db).0 ≡ err user_blocked
unfolding reserve_budget require_user get_active_user
blocked_user = refl

over_the_cap : (reserve_budget (at 5) "alice" (pos 31) (some "m") none db).0 ≡ err budget_exceeded
unfolding reserve_budget require_user get_active_user get_budget reserve_within hold_below
    update_user is_model_free normalize_strategy
over_the_cap = refl

-- After the reset the spend is 0, and the reservation of 10 is still held.
due_reset :
    (reserve_budget (at 1500) "alice" (pos 90) (some "m") none db).0
    ≡ ok (reservation "alice" 90 for_update)
unfolding reserve_budget require_user get_active_user get_budget reserve_within hold_below
    update_user is_model_free normalize_strategy cas_reset_user_budget next_reset
due_reset = refl

price : ModelPricing
price = record {
  model_key = "m";
  effective_at = 0;
  input_price_per_million = 3;
  output_price_per_million = 5;
}

cost-le-estimate_example : 64 ≤ estimate_cost (some price) (pos 9) (some (pos 2)) (pos 100)
unfolding usage_cost price
cost-le-estimate_example =
    cost-le-estimate price (pos 9) (pos 100) (some (pos 2)) 2 2 64 (omega arith) (omega arith) refl

reserve_decides_example :
    let (r, db') = reserve_budget (at 1500) "alice" (pos 91) (some "m") none db in
    let row = effective (at 1500) team alice in
    let room = has_room 100 91 row in
    (is_ok r ≡ room) × (get_active_user "alice" db' ≡ some (if room then hold_row 91 row else row))
unfolding get_active_user get_budget is_model_free normalize_strategy
reserve_decides_example =
    reserve_decides (at 1500) "alice" (pos 91) (some "m") none db alice "team" team 100 refl refl
      refl refl refl refl refl

cas_reset_once_example :
    let (r, db') = cas_reset_user_budget (at 1500) "alice" alice "team" team db in
    (cas_reset_user_budget (at 1600) "alice" alice "team" team db' ≡ (ok alice, db'))
    × (get_active_user "alice" db' ≡ some (after_reset (at 1500) "alice" db alice "team" team))
    × ((after_reset (at 1500) "alice" db alice "team" team).spend ≡ 0)
    × ((after_reset (at 1500) "alice" db alice "team" team).reserved ≡ 10)
    × (length db'.reset_logs ≡ 0 + 1)
unfolding get_active_user
cas_reset_once_example =
    cas_reset_once (at 1500) (at 1600) "alice" db alice alice alice "team" team 1000 refl refl refl
      refl (omega arith)

abbrev start : World
start = record {
  db = record db { users = ("alice", record alice { reserved = 0 }) ∷ [] };
  handles = [];
}

-- two requests whose transactions are mixed, with a reset between
abbrev mixed : List Txn
mixed =
    reserve_below 100 "alice" 30 for_update
    ∷ reserve_below 100 "alice" 20 for_update
    ∷ reserve_below 100 "alice" 10 cas
    ∷ reset (at 1500) "alice" alice "team" team
    ∷ settle 1 (pos 25)
    ∷ refund 0
    ∷ []

run-IsAccounted_example : IsAccounted "alice" (run mixed start)
unfolding get_active_user
run-IsAccounted_example = run-IsAccounted "alice" mixed start refl

no_overspend_example : IsWithin 100 "alice" (run mixed start)
unfolding get_active_user all_allowed step hold_below update_user cas_reset_user_budget
    reconcile_reservation refund_reservation
no_overspend_example = no_overspend 100 "alice" mixed start refl (refl, omega arith)
