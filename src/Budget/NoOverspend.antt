-- ===== src/Budget/NoOverspend.antt =====
-- The spend and the reservations of a user against its cap, under the transactions of
-- Budget/Interleaving.
use mozilla_ai.Common.{
  none, some, ◌&&◌, ℕ, String, ◌≡◌, List, true, not, Bool, ◌+◌, str_eq, ◌≤◌, arith, Bool-cases,
  subst, inl, [], ◌||◌, inr, leb, ◌==◌, refl, Option-cases,
}
use mozilla_ai.Budget.Validate.{cas_reset_user_budget}
use mozilla_ai.Budget.Reserve.{
  refund_reservation, reconcile_reservation, hold_below, hold, hold_row, has_room, release_row,
  settle_row,
}
use mozilla_ai.Budget.Interleaving.{
  reset, settle, run, step, Txn, World, reserve_below, opened, reserve, outstanding, share,
  Holds-users, get_elem?, erase_idx, outstanding-erase_idx, refund, charge, unreserved,
}
use mozilla_ai.Budget.{
  Env, User, Budget, ReservationHandle, Db, ◌∷◌, update_user, get_active_user, next_reset, is_due,
  reset_row,
}
use mozilla_ai.Budget.Normalize.{Strategy}
use mozilla_ai.Common.Int.{ℤ, pos_part}
use mozilla_ai.Budget.Effects.{Holds-update, Holds}

-- What the bound asks of one transaction: those on behalf of the user reserve below that cap, and
-- settle at most what they hold; all others are free.
abbrev pub allowed : ℕ → String → Txn → World → Bool
allowed limit uid (reserve u e s) w = not (str_eq u uid)
allowed limit uid (reserve_below l u e s) w = not (str_eq u uid) || l == limit
allowed limit uid (settle i cost) w = elim (get_elem? w.handles i) [
  | none ↦ true
  | some h ↦ not (str_eq h.user_id uid) || leb (pos_part cost) (share uid h)
]
allowed limit uid (refund i) w = true
allowed limit uid (charge u cost s) w = not (str_eq u uid) || pos_part cost == 0
allowed limit uid (reset env u seen id budget) w = true

unfoldable pub all_allowed : ℕ → String → List Txn → World → Bool
all_allowed limit uid [] w = true
all_allowed limit uid (t ∷ ts) w = allowed limit uid t w && all_allowed limit uid ts (step t w)

abbrev pub Fits : ℕ → ℕ → User → Type 0
Fits limit held r = (r.reserved ≡ held) × (r.spend + r.reserved ≤ limit)

-- The row is accounted for, and within the cap.
abbrev pub IsWithin : ℕ → String → World → Type 0
IsWithin limit uid w = Holds (Fits limit (outstanding uid w.handles)) (get_active_user uid w.db)

refits :
    (limit : ℕ) (uid : String) (db : Db) (m n : ℕ)
    → m ≡ n
    → Holds (Fits limit m) (get_active_user uid db)
    → Holds (Fits limit n) (get_active_user uid db)
refits limit uid db m n e h = subst (λ k. Holds (Fits limit k) (get_active_user uid db)) e h

below-IsWithin :
    (limit : ℕ) (uid : String) (l : ℕ) (u : String) (e : ℕ) (s : Strategy) (w : World)
    → allowed limit uid (reserve_below l u e s) w ≡ true
    → IsWithin limit uid w
    → IsWithin limit uid (opened w (hold_below l u e s w.db))
unfolding hold_below
below-IsWithin limit uid l u e s w a h =
    elim (Bool-cases (update_user u (has_room l e) (hold_row e) w.db).0) [
      | inl b ↦ rw b (
          Holds-update _ _ u uid (has_room l e) (hold_row e) w.db (λ r. refl)
            (λ r p d. ground arith) h)
      | inr b ↦ rw b (
          Holds-users _ uid (update_user u (has_room l e) (hold_row e) w.db).1 _ refl (
            Holds-update _ _ u uid (has_room l e) (hold_row e) w.db (λ r. refl)
              (λ r p d. ground arith) h))
    ]

reconcile-IsWithin :
    (limit : ℕ) (uid : String) (cost : ℤ) (g : ReservationHandle) (n : ℕ) (db : Db)
    → (not (str_eq g.user_id uid) || leb (pos_part cost) (share uid g)) ≡ true
    → Holds (Fits limit (share uid g + n)) (get_active_user uid db)
    → Holds (Fits limit n) (get_active_user uid (reconcile_reservation g cost db))
unfolding reconcile_reservation
reconcile-IsWithin limit uid cost g n db a h =
    elim (Bool-cases (not g.reserved && pos_part cost == 0)) [
      | inl b ↦ rw b (refits limit uid db (share uid g + n) n (ground arith) h)
      | inr b ↦ rw b (
          Holds-update _ _ g.user_id uid (λ r. true) (settle_row g (pos_part cost)) db (λ r. refl)
            (λ r p d. ground arith) h)
    ]

refund-IsWithin :
    (limit : ℕ) (uid : String) (g : ReservationHandle) (n : ℕ) (db : Db)
    → Holds (Fits limit (share uid g + n)) (get_active_user uid db)
    → Holds (Fits limit n) (get_active_user uid (refund_reservation g db))
unfolding refund_reservation
refund-IsWithin limit uid g n db h = elim (Bool-cases g.reserved) [
  | inl b ↦ rw b (
      Holds-update _ _ g.user_id uid (λ r. true) (release_row g.estimate) db (λ r. refl)
        (λ r p d. ground arith) h)
  | inr b ↦ rw b (refits limit uid db (share uid g + n) n (ground arith) h)
]

reset-IsWithin :
    (limit : ℕ) (env : Env) (u : String) (seen : User) (id : String) (budget : Budget)
    (uid : String) (n : ℕ) (db : Db)
    → Holds (Fits limit n) (get_active_user uid db)
    → Holds (Fits limit n) (get_active_user uid (cas_reset_user_budget env u seen id budget db).1)
unfolding cas_reset_user_budget
reset-IsWithin limit env u seen id budget uid n db h =
    let next = next_reset env.now budget.budget_duration_sec in
    let out = update_user u (is_due env.now) (reset_row env.now next) db in
    let moved : Holds (Fits limit n) (get_active_user uid out.1) =
      Holds-update _ _ u uid (is_due env.now) (reset_row env.now next) db (λ r. refl)
        (λ r p d. ground arith) h in
    elim (Bool-cases out.0) [
      | inl b ↦ elim (Bool-cases env.commits) [
        | inl c ↦ rw (b, c) (Holds-users _ uid out.1 _ refl moved)
        | inr c ↦ rw (b, c) h
      ]
      | inr b ↦ rw b h
    ]

step-IsWithin :
    (limit : ℕ) (uid : String) (t : Txn) (w : World)
    → allowed limit uid t w ≡ true
    → IsWithin limit uid w
    → IsWithin limit uid (step t w)
unfolding step hold
step-IsWithin limit uid (reserve u e s) w a h =
    Holds-update _ _ u uid (λ r. true) (hold_row e) w.db (λ r. refl) (λ r p d. ground arith) h
step-IsWithin limit uid (reserve_below l u e s) w a h = below-IsWithin limit uid l u e s w a h
step-IsWithin limit uid (settle i cost) w a h = elim (Option-cases (get_elem? w.handles i)) [
  | inl e ↦ rw (step, e) h
  | inr (g, e) ↦
      rw (step, e)
        (reconcile-IsWithin limit uid cost g (outstanding uid (erase_idx w.handles i)) w.db
          (ground (arith, e)) (rw (outstanding-erase_idx uid w.handles i g e) h))
]
step-IsWithin limit uid (refund i) w a h = elim (Option-cases (get_elem? w.handles i)) [
  | inl e ↦ rw (step, e) h
  | inr (g, e) ↦
      rw (step, e)
        (refund-IsWithin limit uid g (outstanding uid (erase_idx w.handles i)) w.db
          (rw (outstanding-erase_idx uid w.handles i g e) h))
]
step-IsWithin limit uid (charge u cost s) w a h =
    reconcile-IsWithin limit uid cost (unreserved u s) (outstanding uid w.handles) w.db
      (ground arith) (refits limit uid w.db (outstanding uid w.handles) _ (ground arith) h)
step-IsWithin limit uid (reset env u seen id budget) w a h =
    reset-IsWithin limit env u seen id budget uid (outstanding uid w.handles) w.db h

-- From a row that is accounted for and within the cap, and whatever transactions run in whatever
-- order, as long as those of the user reserve below that cap and settle at most what they hold:
-- spend and reservations together never pass the cap.
pub no_overspend :
    (limit : ℕ) (uid : String) (ts : List Txn) (w : World)
    → all_allowed limit uid ts w ≡ true
    → IsWithin limit uid w
    → IsWithin limit uid (run ts w)
unfolding run all_allowed
no_overspend limit uid [] w a h = h
no_overspend limit uid (t ∷ ts) w a h =
    no_overspend limit uid ts (step t w) (ground arith)
      (step-IsWithin limit uid t w (ground arith) h)
