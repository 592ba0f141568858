-- ===== src/Budget/ReserveHeld.antt =====
-- What `reserve_budget` of otari/src/gateway/services/budget_service.py does to the column `reserved`
-- of every active user.
use mozilla_ai.Budget.Held.{
  held, changed, SameHeld, Holding, held-update, held-update_all, if_same, SameHeld-update,
  SameHeld-users,
}
use mozilla_ai.Common.{
  ℕ, ◌+◌, String, ◌≡◌, refl, ap, ◌∙◌, inl, inr, Bool, ◌&&◌, Option, none, some, if◌then◌else◌,
  Bool-cases, str_eq, string_eq, true, false, arith, sym, if_holds, Option-cases, List,
}
use mozilla_ai.Budget.{
  User, Db, get_active_user, update_user, Env, Result, Budget, ReservationHandle, commit_or, ok,
  err, next_reset, is_due, reset_row, Action, require_user, ◌>>=◌, is_model_free, is_disabled,
  get_budget, pure, user_not_found, user_blocked,
}
use mozilla_ai.Budget.Normalize.{Strategy, normalize_strategy}
use mozilla_ai.Budget.Validate.{cas_reset_user_budget}
use mozilla_ai.Budget.Reserve.{
  hold_below, hold, hold_row, no_reservation, reserve_within, has_room, reserve_budget,
}
use mozilla_ai.Common.Int.{ℤ, pos_part}

-- The end of an action that leaves what is reserved alone.
abbrev Keeps : {A : Type 0} → Db → Result A × Db → Type 0
Keeps db (ok a, db') = SameHeld db db'
Keeps db (err e, db') = SameHeld db db'

commit_or-Keeps :
    {A : Type 0} (env : Env) (before : Db) (a : A) (db : Db)
    → SameHeld before db
    → Keeps before (commit_or env before a db)
commit_or-Keeps env before a db same = elim (Bool-cases env.commits) [
  | inl e ↦ rw e same
  | inr e ↦ rw e (λ other. refl)
]

cas_reset-Keeps :
    (env : Env) (uid : String) (u : User) (id : String) (budget : Budget) (db : Db)
    → Keeps db (cas_reset_user_budget env uid u id budget db)
unfolding cas_reset_user_budget
cas_reset-Keeps env uid u id budget db =
    let next = next_reset env.now budget.budget_duration_sec in
    let written = update_user uid (is_due env.now) (reset_row env.now next) db in
    let same =
      SameHeld-update uid (is_due env.now) (reset_row env.now next) db (λ v. refl) (λ v. refl) in
    if_holds (Keeps db) written.0 _ _
      (commit_or-Keeps env db _ _ (λ other. SameHeld-users written.1 _ refl other ∙ same other))
      (λ other. refl)

pub add_none : (o : Option ℕ) → changed (λ n. n + 0) o ≡ o
add_none none = refl
add_none (some n) = ap some (omega arith)

-- a handle and the database after it, for a reservation in `db`
abbrev pub Reserves : String → Db → Result ReservationHandle × Db → Type 0
Reserves uid db (ok h, db') =
    (h.user_id ≡ uid) × (h.reserved ≡ false → h.estimate ≡ 0) × Holding uid h.estimate db db'
Reserves uid db (err e, db') = SameHeld db db'

if_and_true :
    {A : Type 0} (b : Bool) (x y : A) → (if b && true then x else y) ≡ (if b then x else y)
if_and_true true x y = refl
if_and_true false x y = refl

if_and_false : {A : Type 0} (b : Bool) (x y : A) → (if b && false then x else y) ≡ y
if_and_false true x y = refl
if_and_false false x y = refl

module _ (uid : String) (estimate : ℕ) (strategy : Strategy) (db : Db) where
  hold-Reserves : Reserves uid db (hold uid estimate strategy db)
  unfolding hold
  hold-Reserves = (
    refl,
    (λ e. cc),
    λ other.
        held-update_all (λ n. n + estimate) uid other (hold_row estimate) db (λ u. refl)
          (λ u. refl),
  )

  no_reservation-Reserves : Reserves uid db (ok (no_reservation uid strategy), db)
  no_reservation-Reserves =
      (refl, (λ e. refl), λ other. sym (if_same (str_eq uid other) _ _ (add_none (held other db))))

  hold_below-Reserves : (limit : ℕ) → Reserves uid db (hold_below limit uid estimate strategy db)
  unfolding hold_below
  hold_below-Reserves limit =
      let written = update_user uid (has_room limit estimate) (hold_row estimate) db in
      let moved = λ (other : String).
        held-update (λ n. n + estimate) uid other (has_room limit estimate) (hold_row estimate) db
          (λ u. refl) (λ u. refl) in
      elim (Bool-cases written.0) [
        | inl e ↦
            rw e (refl, (λ e. cc), λ other. moved other ∙ rw e (if_and_true (str_eq uid other) _ _))
        | inr e ↦ rw e (λ other.
            SameHeld-users written.1 _ refl other
            ∙ (moved other ∙ rw e (if_and_false (str_eq uid other) _ _)))
      ]

  reserve_within-Reserves :
      (env : Env) (model : Option String) (budget : Budget)
      → Reserves uid db (reserve_within env uid estimate model strategy budget db)
  unfolding reserve_within
  reserve_within-Reserves env model budget = elim (Option-cases budget.max_budget) [
    | inl e ↦ rw e (
        if_holds (λ (m : Action ReservationHandle). Reserves uid db (m db))
          (is_model_free env model) _ _ no_reservation-Reserves hold-Reserves)
    | inr (limit, e) ↦ rw e (
        if_holds (λ (m : Action ReservationHandle). Reserves uid db (m db))
          (is_model_free env model) _ _ no_reservation-Reserves (hold_below-Reserves limit))
  ]

Reserves-after :
    (uid : String) (a b : Db) (r : Result ReservationHandle × Db)
    → SameHeld a b
    → Reserves uid b r
    → Reserves uid a r
Reserves-after uid a b (ok h, db') same (owner, none_held, held_after) =
    (owner, none_held, λ other. held_after other ∙ rw (same other) refl)
Reserves-after uid a b (err e, db') same h = λ other. h other ∙ same other

bind-Reserves :
    {A : Type 0} (uid : String) (m : Action A) (f : A → Action ReservationHandle) (db : Db)
    → Keeps db (m db)
    → ((a : A) (db' : Db) → Reserves uid db' (f a db'))
    → Reserves uid db ((m >>= f) db)
bind-Reserves {A} uid m f db keeps next = go (m db) keeps
  where
    go :
        (r : Result A × Db)
        → Keeps db r
        → Reserves uid db (elim r.0 [ ok a ↦ f a r.1 | err e ↦ (err e, r.1) ])
    go (ok a, db') same = Reserves-after uid db db' (f a db') same (next a db')
    go (err e, db') same = same

require_user-Keeps : (uid : String) (db : Db) → Keeps db (require_user uid db)
unfolding require_user
require_user-Keeps uid db = go (get_active_user uid db)
  where
    go :
        (o : Option User)
        → Keeps {A = User} db (elim o [
          | none ↦ (err user_not_found, db)
          | some u ↦ if u.blocked then (err user_blocked, db) else (ok u, db)
        ])
    go none = λ other. refl
    go (some u) = if_holds (Keeps db) u.blocked _ _ (λ other. refl) (λ other. refl)

module _ (env : Env) (uid : String) (estimate : ℕ) (model : Option String)
    (strategy : Strategy) where
  -- `reserve_budget` once the user was read
  abbrev in_budget : User → Db → Option (String × Budget) → Result ReservationHandle × Db
  in_budget user db found = elim found [
    | none ↦ (ok (no_reservation uid strategy), db)
    | some (id, budget) ↦
        ((if is_due env.now user then cas_reset_user_budget env uid user id budget else pure user)
            >>= λ _. reserve_within env uid estimate model strategy budget)
          db
  ]

  in_budget-Reserves :
      (user : User) (db : Db) (found : Option (String × Budget))
      → Reserves uid db (in_budget user db found)
  in_budget-Reserves user db none = no_reservation-Reserves uid 0 strategy db
  in_budget-Reserves user db (some (id, budget)) =
      bind-Reserves uid
        (if is_due env.now user then cas_reset_user_budget env uid user id budget else pure user)
        (λ seen. reserve_within env uid estimate model strategy budget) db
        (if_holds (λ (m : Action User). Keeps db (m db)) (is_due env.now user) _ _
          (cas_reset-Keeps env uid user id budget db) (λ other. refl))
        (λ seen db'. reserve_within-Reserves uid estimate strategy db' env model budget)

-- A reservation that goes through adds the estimate of its handle to what is reserved for the user,
-- 0 in a handle that reserves nothing, and one that is refused changes what is reserved for nobody.
pub reserve_budget-Reserves :
    (env : Env) (uid : String) (estimate : ℤ) (model : Option String) (strategy : Option (List ℕ))
    (db : Db)
    → Reserves uid db (reserve_budget env uid estimate model strategy db)
unfolding reserve_budget
reserve_budget-Reserves env uid estimate model strategy db =
    let normalized = normalize_strategy strategy in
    bind-Reserves uid (require_user uid)
      (λ user db'.
        if is_disabled normalized
        then (ok (no_reservation uid normalized), db')
        else in_budget env uid (pos_part estimate) model normalized user db'
            (get_budget user.budget_id db'))
      db (require_user-Keeps uid db)
      (λ user db'.
        if_holds (Reserves uid db') (is_disabled normalized) _ _
          (no_reservation-Reserves uid 0 normalized db')
          (in_budget-Reserves env uid (pos_part estimate) model normalized user db'
            (get_budget user.budget_id db')))
