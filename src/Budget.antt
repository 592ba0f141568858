-- ===== src/Budget.antt =====
-- Budgets, otari/src/gateway/services/budget_service.py, with the tables of
-- otari/src/gateway/models/entities.py and the query of otari/src/gateway/repositories/users_repository.py.
-- A table is a dictionary by its primary key. Money is an exact number of 1 / (4 * 10^6) of the unit
-- of the prices, so that a quarter of a token has a whole cost; what the code clamps comes in signed.
-- Instants are UTC times in seconds. Each function runs as one call; Budget/Interleaving has the
-- transactions of many calls in any order.
pub mod Cost
pub mod Normalize
pub mod Validate
pub mod Reserve
pub mod Rows
pub mod Effects
pub mod Admission
pub mod Resets
pub mod Interleaving
pub mod NoOverspend
pub mod Held
pub mod ReserveHeld
pub mod TopUp
mod Tests
use mozilla_ai.Common.{
  ℕ, ◌+◌, ◌-◌, String, Bool, true, false, Option, none, some, List, [], ◌∷◌, ◌++◌, leb, ltb, ◌==◌,
  ◌&&◌, ◌||◌, not, str_eq, string_eq, if◌then◌else◌,
}
use mozilla_ai.Common.Int.{ℤ, pos_part}
use mozilla_ai.Common.Dict.{Dict, lookup, insert}
use mozilla_ai.Pricing.{PriceSource, ModelPricing, find_model_pricing}
use mozilla_ai.Budget.Normalize.{Strategy, for_update, cas, disabled, normalize_strategy}

-- a row of `users`, under its `user_id`; the columns that budgets do not read are left out
pub record User : Type 0 where
  pub spend : ℕ
  pub reserved : ℕ
  pub budget_id : Option String
  pub budget_started_at : Option ℕ
  pub next_budget_reset_at : Option ℕ
  pub blocked : Bool
  pub deleted_at : Option ℕ

-- a row of `budgets`, under its `budget_id`
pub record Budget : Type 0 where
  pub max_budget : Option ℕ
  pub budget_duration_sec : Option ℕ

pub record BudgetResetLog : Type 0 where
  pub user_id : String
  pub budget_id : String
  pub previous_spend : ℕ
  pub reset_at : ℕ
  pub next_reset_at : Option ℕ

-- `exceeded` is the counter that `record_budget_exceeded` increments
pub record Db : Type 0 where
  pub users : Dict String User
  pub budgets : Dict String Budget
  pub reset_logs : List BudgetResetLog
  pub exceeded : ℕ

-- the HTTPExceptions, and a SQLAlchemyError that goes through
pub data Error : Type 0 where
  user_not_found : Error
  user_blocked : Error
  budget_exceeded : Error
  database_error : Error

pub data Result (A : Type 0) : Type 0 where
  ok : A → Result A
  err : Error → Result A

abbrev pub Action : Type 0 → Type 0
Action A = Db → Result A × Db

infixl 5 ◌>>=◌
abbrev pub ◌>>=◌ : {A B : Type 0} → Action A → (A → Action B) → Action B
◌>>=◌ m f db = let (r, db') = m db in elim r [ ok a ↦ f a db' | err e ↦ (err e, db') ]

module _ {A : Type 0} where
  abbrev pub pure : A → Action A
  pure a db = (ok a, db)

  abbrev pub raise : Error → Action A
  raise e db = (err e, db)

  -- count the refusal, and raise the 403
  abbrev pub raise_exceeded : Action A
  raise_exceeded db = (err budget_exceeded, record db { exceeded = db.exceeded + 1 })

-- What a call sees of its surroundings: the time, whether its commit goes through, the prices, and
-- `AnyLLM.split_model_provider` of the package any-llm, which may raise.
pub record Env : Type 0 where
  pub now : ℕ
  pub commits : Bool
  pub prices : PriceSource
  pub split_model_provider : String → Option (Option String × String)

pub record ReservationHandle : Type 0 where
  pub user_id : String
  pub estimate : ℕ
  pub reserved : Bool
  pub strategy : Strategy

abbrev pub is_active : User → Bool
is_active u = elim u.deleted_at [ none ↦ true | some _ ↦ false ]

abbrev pub active_only : Option User → Option User
active_only none = none
active_only (some u) = if is_active u then some u else none

-- `get_active_user`
unfoldable pub get_active_user : String → Db → Option User
get_active_user uid db = active_only (lookup uid db.users)

-- `UPDATE users SET … WHERE user_id = uid AND deleted_at IS NULL AND test`: whether a row was changed
unfoldable pub update_user : String → (User → Bool) → (User → User) → Db → Bool × Db
update_user uid test change db = elim (get_active_user uid db) [
  | none ↦ (false, db)
  | some u ↦
      if test u then (true, record db { users = insert uid (change u) db.users }) else (false, db)
]

-- `not user.budget_id`, and a budget that is not found
unfoldable pub get_budget : Option String → Db → Option (String × Budget)
get_budget none db = none
get_budget (some id) db =
    if str_eq id ""
    then none
    else elim (lookup id db.budgets) [ none ↦ none | some b ↦ some (id, b) ]

-- `calculate_next_reset(now, duration) if duration else None`
unfoldable pub next_reset : ℕ → Option ℕ → Option ℕ
next_reset now none = none
next_reset now (some duration) = if duration == 0 then none else some (now + duration)

-- `user.next_budget_reset_at and now >= user.next_budget_reset_at`
abbrev pub is_due : ℕ → User → Bool
is_due now u = elim u.next_budget_reset_at [ none ↦ false | some t ↦ leb t now ]

-- the columns that a reset writes
abbrev pub reset_row : ℕ → Option ℕ → User → User
reset_row now next u = record u {
  spend = 0;
  budget_started_at = some now;
  next_budget_reset_at = next;
}

-- the flush of changed attributes of a row that the session holds, by its primary key
unfoldable pub write_row : String → (User → User) → Db → Db
write_row uid change db = elim (lookup uid db.users) [
  | none ↦ db
  | some u ↦ record db { users = insert uid (change u) db.users }
]

-- `commit`, which may raise: then the transaction is rolled back to `before`
abbrev pub commit_or : {A : Type 0} → Env → Db → A → Action A
commit_or env before a db = if env.commits then (ok a, db) else (err database_error, before)

is_free_row : Option ModelPricing → Bool
is_free_row none = false
is_free_row (some p) = p.input_price_per_million == 0 && p.output_price_per_million == 0

-- `model and await _is_model_free(db, model)`; a selector that does not parse is not free
unfoldable pub is_model_free : Env → Option String → Bool
unfolding is_free_row
is_model_free env none = false
is_model_free env (some model) =
    if str_eq model "" then false else elim (env.split_model_provider model) [
      | none ↦ false
      | some (provider, name) ↦ is_free_row (find_model_pricing env.prices provider name env.now)
    ]

-- the user row, or the 404, or the 403 of a blocked user
unfoldable pub require_user : String → Action User
require_user uid db = elim (get_active_user uid db) [
  | none ↦ (err user_not_found, db)
  | some u ↦ if u.blocked then (err user_blocked, db) else (ok u, db)
]

abbrev pub is_disabled : Strategy → Bool
is_disabled disabled = true
is_disabled _ = false
