-- ===== src/Budget/Resets.antt =====
-- What the resets of a budget write, where two callers meet.
use mozilla_ai.Common.{
  ℕ, ◌+◌, ◌<◌, ◌≡◌, refl, String, true, false, some, arith, str_eq_iff, string_eq, length, ◌∙◌,
  length-append,
}
use mozilla_ai.Common.Dict.{insert}
use mozilla_ai.Budget.{User, Budget, Db, ok, Env, get_active_user, next_reset, is_due, reset_row}
use mozilla_ai.Budget.Validate.{cas_reset_user_budget, add_reset_log}
use mozilla_ai.Budget.Rows.{
  get_active_user-insert, get_active_user-IsActive, update_user-some, get_active_user-users,
}

module _ (env : Env) (uid : String) (db : Db) (u : User) (id : String) (budget : Budget) where
  -- the user's row after the reset
  abbrev pub after_reset : User
  after_reset = reset_row env.now (next_reset env.now budget.budget_duration_sec) u

  -- the database after it, where `seen` is the row that the caller had read
  abbrev pub reset_db : User → Db
  reset_db seen =
      add_reset_log
        (record {
          user_id = uid;
          budget_id = id;
          previous_spend = seen.spend;
          reset_at = env.now;
          next_reset_at = next_reset env.now budget.budget_duration_sec;
        })
        (record db { users = insert uid after_reset db.users })

  inserted_row :
      get_active_user uid db ≡ some u
      → get_active_user uid (record db { users = insert uid after_reset db.users })
        ≡ some after_reset
  inserted_row e =
      get_active_user-insert uid uid after_reset db (get_active_user-IsActive uid db u e)
      ∙ rw ((str_eq_iff uid uid).1 refl)

  pub cas_reset_due-row :
      (seen : User)
      → get_active_user uid db ≡ some u
      → get_active_user uid (reset_db seen) ≡ some after_reset
  cas_reset_due-row seen e =
      get_active_user-users uid (reset_db seen)
        (record db { users = insert uid after_reset db.users }) refl
      ∙ inserted_row e

  -- Where the row is still due, the reset clears the spend, moves the dates and writes one log.
  pub cas_reset_due :
      (seen : User)
      → get_active_user uid db ≡ some u
      → is_due env.now u ≡ true
      → env.commits ≡ true
      → cas_reset_user_budget env uid seen id budget db ≡ (ok after_reset, reset_db seen)
  unfolding cas_reset_user_budget
  cas_reset_due seen e due c = rw (
    update_user-some uid (is_due env.now)
        (reset_row env.now (next_reset env.now budget.budget_duration_sec)) db u e,
    due,
    inserted_row e,
    c,
  )

-- Where the row is no longer due, nothing is written.
pub cas_reset_later :
    (env : Env) (uid : String) (db : Db) (u seen : User) (id : String) (budget : Budget)
    → get_active_user uid db ≡ some u
    → is_due env.now u ≡ false
    → cas_reset_user_budget env uid seen id budget db ≡ (ok seen, db)
unfolding cas_reset_user_budget
cas_reset_later env uid db u seen id budget e later = rw (
  update_user-some uid (is_due env.now)
      (reset_row env.now (next_reset env.now budget.budget_duration_sec)) db u e,
  later,
)

not_due_again :
    (env env' : Env) (u : User) (budget : Budget) (d : ℕ)
    → budget.budget_duration_sec ≡ some d
    → env'.now < env.now + d
    → is_due env'.now (reset_row env.now (next_reset env.now budget.budget_duration_sec) u) ≡ false
unfolding next_reset
not_due_again env env' u budget d h k = rw h (ground arith)

-- Of two calls that both read the row while its reset was due, only the first resets it: the second,
-- within the new period, changes nothing, and one log is written. The reservations stay held.
pub cas_reset_once :
    (env env' : Env) (uid : String) (db : Db) (u seen seen' : User) (id : String) (budget : Budget)
    (d : ℕ)
    → get_active_user uid db ≡ some u
    → is_due env.now u ≡ true
    → env.commits ≡ true
    → budget.budget_duration_sec ≡ some d
    → env'.now < env.now + d
    → let (r, db') = cas_reset_user_budget env uid seen id budget db in
      (cas_reset_user_budget env' uid seen' id budget db' ≡ (ok seen', db'))
      × (get_active_user uid db' ≡ some (after_reset env uid db u id budget))
      × ((after_reset env uid db u id budget).spend ≡ 0)
      × ((after_reset env uid db u id budget).reserved ≡ u.reserved)
      × (length db'.reset_logs ≡ length db.reset_logs + 1)
cas_reset_once env env' uid db u seen seen' id budget d e due c h k =
    let row = cas_reset_due-row env uid db u id budget seen e in
    rw (cas_reset_due env uid db u id budget seen e due c) (
      cas_reset_later env' uid (reset_db env uid db u id budget seen) _ seen' id budget row
          (not_due_again env env' u budget d h k),
      row,
      refl,
      refl,
      length-append db.reset_logs _,
    )
