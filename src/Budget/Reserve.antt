-- ===== src/Budget/Reserve.antt =====
-- `reserve_budget`, `reconcile_reservation`, `refund_reservation` and `increase_reservation` of
-- otari/src/gateway/services/budget_service.py.
use mozilla_ai.Common.{
  ℕ, ◌+◌, ◌-◌, String, Bool, true, false, Option, none, some, List, leb, ltb, ◌==◌, ◌&&◌, not,
  string_eq, if◌then◌else◌,
}
use mozilla_ai.Common.Int.{ℤ, pos_part}
use mozilla_ai.Budget.Normalize.{Strategy, normalize_strategy}
use mozilla_ai.Budget.{
  User, Budget, Db, ok, Action, ◌>>=◌, pure, raise_exceeded, Env, ReservationHandle, update_user,
  get_budget, is_due, is_model_free, require_user, is_disabled,
}
use mozilla_ai.Budget.Validate.{cas_reset_user_budget}

abbrev pub no_reservation : String → Strategy → ReservationHandle
no_reservation uid strategy = record {
  user_id = uid;
  estimate = 0;
  reserved = false;
  strategy = strategy;
}

abbrev pub reservation : String → ℕ → Strategy → ReservationHandle
reservation uid estimate strategy = record {
  user_id = uid;
  estimate = estimate;
  reserved = true;
  strategy = strategy;
}

-- `reserved = reserved + estimate`
abbrev pub hold_row : ℕ → User → User
hold_row estimate u = record u { reserved = u.reserved + estimate }

-- the UPDATE for a budget with no cap
unfoldable pub hold : String → ℕ → Strategy → Action ReservationHandle
hold uid estimate strategy db =
    (ok (reservation uid estimate strategy), (update_user uid (λ u. true) (hold_row estimate) db).1)

-- the WHERE of the conditional UPDATE
abbrev pub has_room : ℕ → ℕ → User → Bool
has_room cap estimate u =
    ltb (u.spend + u.reserved) cap && leb (u.spend + u.reserved + estimate) cap

-- the conditional UPDATE, and the 403 where no row was changed
unfoldable pub hold_below : ℕ → String → ℕ → Strategy → Action ReservationHandle
hold_below cap uid estimate strategy db =
    let (changed, db') = update_user uid (has_room cap estimate) (hold_row estimate) db in
    if changed then (ok (reservation uid estimate strategy), db') else raise_exceeded db'

-- the part of `reserve_budget` after the reset
unfoldable pub reserve_within :
    Env → String → ℕ → Option String → Strategy → Budget → Action ReservationHandle
reserve_within env uid estimate model strategy budget =
    if is_model_free env model then pure (no_reservation uid strategy) else elim budget.max_budget [
      | none ↦ hold uid estimate strategy
      | some cap ↦ hold_below cap uid estimate strategy
    ]

-- `max(estimate, 0.0)` is the positive part
unfoldable pub reserve_budget :
    Env → String → ℤ → Option String → Option (List ℕ) → Action ReservationHandle
reserve_budget env uid estimate model strategy =
    let normalized = normalize_strategy strategy in
    require_user uid >>= λ user db.
    if is_disabled normalized
    then (ok (no_reservation uid normalized), db)
    else elim (get_budget user.budget_id db) [
      | none ↦ (ok (no_reservation uid normalized), db)
      | some (id, budget) ↦
          ((if is_due env.now user then cas_reset_user_budget env uid user id budget else pure user)
              >>= λ _. reserve_within env uid (pos_part estimate) model normalized budget)
            db
    ]

-- `_release_reserved`: subtraction that stops at 0
abbrev pub release_row : ℕ → User → User
release_row estimate u = record u { reserved = u.reserved - estimate }

-- the columns that `reconcile_reservation` writes
abbrev pub settle_row : ReservationHandle → ℕ → User → User
settle_row h cost u = record u {
  spend = u.spend + cost;
  reserved = if h.reserved then u.reserved - h.estimate else u.reserved;
}

unfoldable pub reconcile_reservation : ReservationHandle → ℤ → Db → Db
reconcile_reservation h actual_cost db =
    let cost = pos_part actual_cost in
    if not h.reserved && cost == 0
    then db
    else (update_user h.user_id (λ u. true) (settle_row h cost) db).1

unfoldable pub refund_reservation : ReservationHandle → Db → Db
refund_reservation h db =
    if h.reserved then (update_user h.user_id (λ u. true) (release_row h.estimate) db).1 else db

abbrev pub grow : ReservationHandle → ReservationHandle → ReservationHandle
grow h delta =
    if delta.reserved
    then record h { estimate = h.estimate + delta.estimate; reserved = true }
    else h

-- `increase_reservation`: the handle comes back grown, or as it was
unfoldable pub increase_reservation :
    Env → ReservationHandle → ℤ → Option String → Option (List ℕ) → Action ReservationHandle
unfolding reserve_budget
increase_reservation env h additional model strategy =
    if pos_part additional == 0
    then pure h
    else reserve_budget env h.user_id additional model strategy >>= λ delta. pure (grow h delta)
