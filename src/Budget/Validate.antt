-- ===== src/Budget/Validate.antt =====
-- `reset_user_budget`, `_cas_reset_user_budget` and `validate_user_budget` of
-- otari/src/gateway/services/budget_service.py.
use mozilla_ai.Common.{
  ℕ, String, Option, none, some, List, [], ◌∷◌, ◌++◌, leb, string_eq, if◌then◌else◌,
}
use mozilla_ai.Budget.Normalize.{Strategy, cas, normalize_strategy}
use mozilla_ai.Budget.{
  User, Budget, BudgetResetLog, Db, ok, Action, ◌>>=◌, pure, raise_exceeded, Env, get_active_user,
  update_user, write_row, get_budget, next_reset, is_due, reset_row, commit_or, is_model_free,
  require_user, is_disabled,
}

abbrev pub add_reset_log : BudgetResetLog → Db → Db
add_reset_log log db = record db { reset_logs = db.reset_logs ++ log ∷ [] }

-- `reset_user_budget`: the row that was read is written back, whether or not it is due
unfoldable pub reset_user_budget : Env → String → User → String → Budget → Action User
unfolding next_reset
reset_user_budget env uid user budget_id budget db =
    let next = next_reset env.now budget.budget_duration_sec in
    let log : BudgetResetLog = record {
      user_id = uid;
      budget_id = budget_id;
      previous_spend = user.spend;
      reset_at = env.now;
      next_reset_at = next;
    } in
    commit_or env db (reset_row env.now next user)
      (add_reset_log log (write_row uid (reset_row env.now next) db))

abbrev pub or_read : Option User → User → User
or_read none user = user
or_read (some u) _ = u

-- `_cas_reset_user_budget`: the row is reset where it is still due, and only then logged
unfoldable pub cas_reset_user_budget : Env → String → User → String → Budget → Action User
unfolding next_reset
cas_reset_user_budget env uid user budget_id budget db =
    let next = next_reset env.now budget.budget_duration_sec in
    let (changed, db') = update_user uid (is_due env.now) (reset_row env.now next) db in
    let log : BudgetResetLog = record {
      user_id = uid;
      budget_id = budget_id;
      previous_spend = user.spend;
      reset_at = env.now;
      next_reset_at = next;
    } in
    if changed
    then commit_or env db (or_read (get_active_user uid db') user) (add_reset_log log db')
    else (ok user, db)

-- the reset of `validate_user_budget`, by its strategy
pub reset_if_due : Env → Strategy → String → User → String → Budget → Action User
reset_if_due env cas uid user id budget =
    if is_due env.now user then cas_reset_user_budget env uid user id budget else pure user
reset_if_due env _ uid user id budget =
    if is_due env.now user then reset_user_budget env uid user id budget else pure user

-- the test of `validate_user_budget` on the row that it holds
pub check_limit : Env → Option String → Budget → User → Action User
check_limit env model budget user = elim budget.max_budget [
  | none ↦ pure user
  | some cap ↦
      if leb cap user.spend
      then if is_model_free env model then pure user else raise_exceeded
      else pure user
]

-- the checks against the budget, where the user has one
unfoldable pub validate_user_budget : Env → String → Option String → Option (List ℕ) → Action User
validate_user_budget env uid model strategy =
    let normalized = normalize_strategy strategy in
    require_user uid >>= λ user db.
    if is_disabled normalized then (ok user, db) else elim (get_budget user.budget_id db) [
      | none ↦ (ok user, db)
      | some (id, budget) ↦
          (reset_if_due env normalized uid user id budget >>= check_limit env model budget) db
    ]
