-- ===== src/Budget/Admission.antt =====
-- What `reserve_budget` decides, and the rows that it leaves.
use mozilla_ai.Common.{
  ℕ, ◌≡◌, String, Bool, true, false, some, arith, if◌then◌else◌, Bool-cases, inl, inr, refl,
}
use mozilla_ai.Budget.{
  User, Db, Result, ok, err, get_active_user, Strategy, Env, Budget, is_due, reset_row, pure,
  next_reset, Option, update_user, ℤ, List, is_disabled, normalize_strategy, get_budget,
  is_model_free, require_user,
}
use mozilla_ai.Budget.Reserve.{hold_row, has_room, hold_below, reserve_budget, reserve_within}
use mozilla_ai.Budget.Rows.{
  update_user-some, row_after, get_active_user-users, update_user_hits, require_user_ok,
}
use mozilla_ai.Budget.Validate.{cas_reset_user_budget}
use mozilla_ai.Budget.Resets.{cas_reset_due, cas_reset_due-row, reset_db}
use mozilla_ai.Common.Int.{pos_part}

abbrev pub is_ok : {A : Type 0} → Result A → Bool
is_ok (ok _) = true
is_ok (err _) = false

-- the row that the admission goes by: reset, if a reset is due
abbrev pub effective : Env → Budget → User → User
effective env budget u =
    if is_due env.now u
    then reset_row env.now (next_reset env.now budget.budget_duration_sec) u
    else u

-- The conditional UPDATE goes through exactly where there is room.
hold_below-decides :
    (limit : ℕ) (uid : String) (estimate : ℕ) (strategy : Strategy) (db : Db) (u : User)
    → get_active_user uid db ≡ some u
    → is_ok (hold_below limit uid estimate strategy db).0 ≡ has_room limit estimate u
unfolding hold_below
hold_below-decides limit uid estimate strategy db u e =
    ground (arith, update_user-some uid (has_room limit estimate) (hold_row estimate) db u e)

hold_below-row :
    (limit : ℕ) (uid : String) (estimate : ℕ) (strategy : Strategy) (db : Db) (u : User)
    → get_active_user uid db ≡ some u
    → get_active_user uid (hold_below limit uid estimate strategy db).1
      ≡ some (if has_room limit estimate u then hold_row estimate u else u)
unfolding hold_below
hold_below-row limit uid estimate strategy db u e = ground (
  arith,
  row_after uid (has_room limit estimate) (hold_row estimate) db u (λ v. refl) e,
  get_active_user-users uid (update_user uid (has_room limit estimate) (hold_row estimate) db).1
      (hold_below limit uid estimate strategy db).1,
  update_user_hits uid (has_room limit estimate) (hold_row estimate) db,
)

-- The reset that comes first leaves the effective row.
reset-row :
    (env : Env) (uid : String) (db : Db) (u : User) (id : String) (budget : Budget)
    → get_active_user uid db ≡ some u
    → env.commits ≡ true
    → (db' : Db) × ((if is_due env.now u then cas_reset_user_budget env uid u id budget else pure u)
          db
        ≡ (ok (effective env budget u), db'))
      × (get_active_user uid db' ≡ some (effective env budget u))
reset-row env uid db u id budget e c = elim (Bool-cases (is_due env.now u)) [
  | inl due ↦ rw due (
    reset_db env uid db u id budget u,
    cas_reset_due env uid db u id budget u e due c,
    cas_reset_due-row env uid db u id budget u e,
  )
  | inr later ↦ rw later (db, refl, e)
]

-- After the reset, for a model that is not free and a budget with a cap.
within-decides :
    (env : Env) (uid : String) (estimate : ℕ) (model : Option String) (strategy : Strategy)
    (budget : Budget) (limit : ℕ) (db : Db) (u : User)
    → get_active_user uid db ≡ some u
    → is_model_free env model ≡ false
    → budget.max_budget ≡ some limit
    → let (r, db') = reserve_within env uid estimate model strategy budget db in
      (is_ok r ≡ has_room limit estimate u)
      × (get_active_user uid db'
          ≡ some (if has_room limit estimate u then hold_row estimate u else u))
unfolding reserve_within
within-decides env uid estimate model strategy budget limit db u e f m =
    rw (f, m)
      (
        hold_below-decides limit uid estimate strategy db u e,
        hold_below-row limit uid estimate strategy db u e,
      )

-- The calls that `reserve_budget` makes for an unblocked user with a budget.
reserve_budget-steps :
    (env : Env) (uid : String) (estimate : ℤ) (model : Option String) (strategy : Option (List ℕ))
    (db db' : Db) (u u' : User) (id : String) (budget : Budget)
    → require_user uid db ≡ (ok u, db)
    → is_disabled (normalize_strategy strategy) ≡ false
    → get_budget u.budget_id db ≡ some (id, budget)
    → (if is_due env.now u then cas_reset_user_budget env uid u id budget else pure u) db
      ≡ (ok u', db')
    → reserve_budget env uid estimate model strategy db
      ≡ reserve_within env uid (pos_part estimate) model (normalize_strategy strategy) budget db'
unfolding reserve_budget
reserve_budget-steps env uid estimate model strategy db db' u u' id budget r s g ran = ground arith

-- An unblocked user under a budget with a cap, with a strategy that is not `disabled`, for a model
-- that is not free, and with a commit that goes through: the estimate (at least 0) is reserved exactly
-- where the user's spend and reservations are below the cap and stay within it with the estimate, the
-- spend being 0 if a reset is due. Then the row holds the estimate on top, else it is as it was after
-- the reset.
pub reserve_decides :
    (env : Env) (uid : String) (estimate : ℤ) (model : Option String) (strategy : Option (List ℕ))
    (db : Db) (u : User) (id : String) (budget : Budget) (limit : ℕ)
    → get_active_user uid db ≡ some u
    → u.blocked ≡ false
    → is_disabled (normalize_strategy strategy) ≡ false
    → get_budget u.budget_id db ≡ some (id, budget)
    → budget.max_budget ≡ some limit
    → is_model_free env model ≡ false
    → env.commits ≡ true
    → let (r, db') = reserve_budget env uid estimate model strategy db in
      let row = effective env budget u in
      let room = has_room limit (pos_part estimate) row in
      (is_ok r ≡ room)
      × (get_active_user uid db' ≡ some (if room then hold_row (pos_part estimate) row else row))
reserve_decides env uid estimate model strategy db u id budget limit e b s g m f c =
    let (db', ran, row) = reset-row env uid db u id budget e c in
    rw
      (reserve_budget-steps env uid estimate model strategy db db' u _ id budget
        (require_user_ok uid db u e b) s g ran)
      (within-decides env uid (pos_part estimate) model (normalize_strategy strategy) budget limit
        db' (effective env budget u) row f m)
