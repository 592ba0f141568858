-- ===== src/Budget/Interleaving.antt =====
-- The transactions of `reserve_budget`, `reconcile_reservation`, `refund_reservation` and
-- `_cas_reset_user_budget` of many requests, in any order: each is atomic, and between two of one
-- request any number of others may run. A transaction that refers to a reservation names it by its
-- position among the open ones, and settles or refunds it once.
use mozilla_ai.Common.{
  ℕ, zero, suc, ◌+◌, ◌≡◌, refl, String, true, false, Option, none, some, List, [], ◌∷◌, arith,
  str_eq, if◌then◌else◌, inl, inr, Bool-cases, Option-cases, ◌&&◌, not, ◌==◌, subst,
}
use mozilla_ai.Common.Int.{ℤ, pos_part}
use mozilla_ai.Budget.Normalize.{Strategy}
use mozilla_ai.Budget.{
  User, Db, Result, ok, err, Env, ReservationHandle, get_active_user, update_user, Budget,
  next_reset, is_due, reset_row,
}
use mozilla_ai.Budget.Validate.{cas_reset_user_budget}
use mozilla_ai.Budget.Reserve.{
  hold, hold_below, reconcile_reservation, refund_reservation, hold_row, settle_row, has_room,
  release_row,
}
use mozilla_ai.Budget.Effects.{Holds, Holds-update}
use mozilla_ai.Budget.Rows.{get_active_user-users}

pub data Txn : Type 0 where
  -- the UPDATE of a reservation without a cap, and below one
  reserve : String → ℕ → Strategy → Txn
  reserve_below : ℕ → String → ℕ → Strategy → Txn
  -- the reconcile of an open reservation with its actual cost, and its refund
  settle : ℕ → ℤ → Txn
  refund : ℕ → Txn
  -- a cost that was never reserved, as for a vision side-call or a free model
  charge : String → ℤ → Strategy → Txn
  -- the conditional reset, with the row that its request had read
  reset : Env → String → User → String → Budget → Txn

-- the database, and the reservations that are not yet settled or refunded
pub record World : Type 0 where
  pub db : Db
  pub handles : List ReservationHandle

abbrev pub get_elem? {ℓ} : {A : Type ℓ} → List A → ℕ → Option A
get_elem? [] i = none
get_elem? (x ∷ xs) zero = some x
get_elem? (x ∷ xs) (suc i) = get_elem? xs i

abbrev pub erase_idx {ℓ} : {A : Type ℓ} → List A → ℕ → List A
erase_idx [] i = []
erase_idx (x ∷ xs) zero = xs
erase_idx (x ∷ xs) (suc i) = x ∷ erase_idx xs i

abbrev pub opened : World → Result ReservationHandle × Db → World
opened w (ok h, db') = record { db = db'; handles = h ∷ w.handles }
opened w (err e, db') = record w { db = db' }

abbrev pub unreserved : String → Strategy → ReservationHandle
unreserved uid strategy = record {
  user_id = uid;
  estimate = 0;
  reserved = false;
  strategy = strategy;
}

unfoldable pub step : Txn → World → World
step (reserve uid estimate strategy) w = opened w (hold uid estimate strategy w.db)
step (reserve_below limit uid estimate strategy) w =
    opened w (hold_below limit uid estimate strategy w.db)
step (settle i cost) w = elim (get_elem? w.handles i) [
  | none ↦ w
  | some h ↦ record { db = reconcile_reservation h cost w.db; handles = erase_idx w.handles i }
]
step (refund i) w = elim (get_elem? w.handles i) [
  | none ↦ w
  | some h ↦ record { db = refund_reservation h w.db; handles = erase_idx w.handles i }
]
step (charge uid cost strategy) w = record w {
  db = reconcile_reservation (unreserved uid strategy) cost w.db;
}
step (reset env uid seen id budget) w = record w {
  db = (cas_reset_user_budget env uid seen id budget w.db).1;
}

unfoldable pub run : List Txn → World → World
run [] w = w
run (t ∷ ts) w = run ts (step t w)

abbrev pub share : String → ReservationHandle → ℕ
share uid h = if str_eq h.user_id uid && h.reserved then h.estimate else 0

-- what the open reservations of a user hold
abbrev pub outstanding : String → List ReservationHandle → ℕ
outstanding uid [] = 0
outstanding uid (h ∷ hs) = share uid h + outstanding uid hs

pub outstanding-erase_idx :
    (uid : String) (hs : List ReservationHandle) (i : ℕ) (h : ReservationHandle)
    → get_elem? hs i ≡ some h
    → share uid h + outstanding uid (erase_idx hs i) ≡ outstanding uid hs
outstanding-erase_idx uid [] i h e = cc
outstanding-erase_idx uid (g ∷ hs) zero h e = ground arith
outstanding-erase_idx uid (g ∷ hs) (suc i) h e = omega (arith, outstanding-erase_idx uid hs i h e)

-- The row's `reserved` is what the user's open reservations hold.
abbrev pub IsAccounted : String → World → Type 0
IsAccounted uid w = Holds (λ u. u.reserved ≡ outstanding uid w.handles) (get_active_user uid w.db)

-- Rows that are read the same satisfy the same.
pub Holds-users :
    (P : User → Type 0) (uid : String) (a b : Db)
    → a.users ≡ b.users
    → Holds P (get_active_user uid a)
    → Holds P (get_active_user uid b)
Holds-users P uid a b e h = subst (Holds P) (get_active_user-users uid a b e) h

reserves :
    (uid : String) (db : Db) (m n : ℕ)
    → m ≡ n
    → Holds (λ r. r.reserved ≡ m) (get_active_user uid db)
    → Holds (λ r. r.reserved ≡ n) (get_active_user uid db)
reserves uid db m n e h = subst (λ k. Holds (λ r. r.reserved ≡ k) (get_active_user uid db)) e h

below-IsAccounted :
    (uid : String) (limit : ℕ) (u : String) (e : ℕ) (s : Strategy) (w : World)
    → IsAccounted uid w
    → IsAccounted uid (opened w (hold_below limit u e s w.db))
unfolding hold_below
below-IsAccounted uid limit u e s w h =
    elim (Bool-cases (update_user u (has_room limit e) (hold_row e) w.db).0) [
      | inl b ↦ rw b (
          Holds-update _ _ u uid (has_room limit e) (hold_row e) w.db (λ r. refl)
            (λ r p d. ground arith) h)
      | inr b ↦ rw b (
          Holds-users _ uid (update_user u (has_room limit e) (hold_row e) w.db).1 _ refl (
            Holds-update _ _ u uid (has_room limit e) (hold_row e) w.db (λ r. refl)
              (λ r p d. ground arith) h))
    ]

reconcile-IsAccounted :
    (uid : String) (cost : ℤ) (g : ReservationHandle) (n : ℕ) (db : Db)
    → Holds (λ r. r.reserved ≡ share uid g + n) (get_active_user uid db)
    → Holds (λ r. r.reserved ≡ n) (get_active_user uid (reconcile_reservation g cost db))
unfolding reconcile_reservation
reconcile-IsAccounted uid cost g n db h = elim (Bool-cases (not g.reserved && pos_part cost == 0)) [
  | inl b ↦ rw b (reserves uid db (share uid g + n) n (ground arith) h)
  | inr b ↦ rw b (
      Holds-update _ _ g.user_id uid (λ r. true) (settle_row g (pos_part cost)) db (λ r. refl)
        (λ r p d. ground arith) h)
]

refund-IsAccounted :
    (uid : String) (g : ReservationHandle) (n : ℕ) (db : Db)
    → Holds (λ r. r.reserved ≡ share uid g + n) (get_active_user uid db)
    → Holds (λ r. r.reserved ≡ n) (get_active_user uid (refund_reservation g db))
unfolding refund_reservation
refund-IsAccounted uid g n db h = elim (Bool-cases g.reserved) [
  | inl b ↦ rw b (
      Holds-update _ _ g.user_id uid (λ r. true) (release_row g.estimate) db (λ r. refl)
        (λ r p d. ground arith) h)
  | inr b ↦ rw b (reserves uid db (share uid g + n) n (ground arith) h)
]

reset-IsAccounted :
    (env : Env) (u : String) (seen : User) (id : String) (budget : Budget) (uid : String) (n : ℕ)
    (db : Db)
    → Holds (λ r. r.reserved ≡ n) (get_active_user uid db)
    → Holds
        (λ r. r.reserved ≡ n)
        (get_active_user uid (cas_reset_user_budget env u seen id budget db).1)
unfolding cas_reset_user_budget
reset-IsAccounted env u seen id budget uid n db h =
    let next = next_reset env.now budget.budget_duration_sec in
    let out = update_user u (is_due env.now) (reset_row env.now next) db in
    let moved : Holds (λ r. r.reserved ≡ n) (get_active_user uid out.1) =
      Holds-update _ _ u uid (is_due env.now) (reset_row env.now next) db (λ r. refl)
        (λ r p d. ground arith) h in
    elim (Bool-cases out.0) [
      | inl b ↦ elim (Bool-cases env.commits) [
        | inl c ↦ rw (b, c) (Holds-users _ uid out.1 _ refl moved)
        | inr c ↦ rw (b, c) h
      ]
      | inr b ↦ rw b h
    ]

step-IsAccounted :
    (uid : String) (t : Txn) (w : World) → IsAccounted uid w → IsAccounted uid (step t w)
unfolding step hold
step-IsAccounted uid (reserve u e s) w h =
    Holds-update _ _ u uid (λ r. true) (hold_row e) w.db (λ r. refl) (λ r p d. ground arith) h
step-IsAccounted uid (reserve_below l u e s) w h = below-IsAccounted uid l u e s w h
step-IsAccounted uid (settle i cost) w h = elim (Option-cases (get_elem? w.handles i)) [
  | inl e ↦ rw (step, e) h
  | inr (g, e) ↦
      rw (step, e)
        (reconcile-IsAccounted uid cost g (outstanding uid (erase_idx w.handles i)) w.db
          (rw (outstanding-erase_idx uid w.handles i g e) h))
]
step-IsAccounted uid (refund i) w h = elim (Option-cases (get_elem? w.handles i)) [
  | inl e ↦ rw (step, e) h
  | inr (g, e) ↦
      rw (step, e)
        (refund-IsAccounted uid g (outstanding uid (erase_idx w.handles i)) w.db
          (rw (outstanding-erase_idx uid w.handles i g e) h))
]
step-IsAccounted uid (charge u cost s) w h =
    reconcile-IsAccounted uid cost (unreserved u s) (outstanding uid w.handles) w.db
      (reserves uid w.db (outstanding uid w.handles) _ (ground arith) h)
step-IsAccounted uid (reset env u seen id budget) w h =
    reset-IsAccounted env u seen id budget uid (outstanding uid w.handles) w.db h

-- Whatever transactions run, in whatever order: if at first the row's `reserved` is the sum of the
-- user's open reservations (0, where none is open), then so it is at the end.
pub run-IsAccounted :
    (uid : String) (ts : List Txn) (w : World) → IsAccounted uid w → IsAccounted uid (run ts w)
unfolding run
run-IsAccounted uid [] w h = h
run-IsAccounted uid (t ∷ ts) w h = run-IsAccounted uid ts (step t w) (step-IsAccounted uid t w h)
