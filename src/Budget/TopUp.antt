-- ===== src/Budget/TopUp.antt =====
-- What `refund_reservation` and `increase_reservation` of otari/src/gateway/services/budget_service.py
-- do to the column `reserved` of every active user.
use mozilla_ai.Budget.Held.{
  held, changed, SameHeld, Holding, held-update_all, if_same, SameHeld-update,
}
use mozilla_ai.Budget.ReserveHeld.{Reserves, add_none, reserve_budget-Reserves}
use mozilla_ai.Common.{
  ℕ, ◌+◌, String, ◌≡◌, refl, ap, ◌∙◌, inl, inr, Bool, Option, none, some, if◌then◌else◌, Bool-cases,
  str_eq, string_eq, true, false, arith, sym, if_holds, List, ◌-◌, ◌==◌, subst,
}
use mozilla_ai.Budget.{Db, Env, Result, ReservationHandle, ok, err, Action}
use mozilla_ai.Budget.Normalize.{Strategy}
use mozilla_ai.Budget.Reserve.{
  no_reservation, reserve_budget, refund_reservation, increase_reservation, grow, release_row,
  reconcile_reservation, settle_row,
}
use mozilla_ai.Common.Int.{ℤ, pos_part, pos}

-- what a refund gives back
sub_add : (o : Option ℕ) (n : ℕ) → changed (λ m. m - n) (changed (λ m. m + n) o) ≡ o
sub_add none n = refl
sub_add (some m) n = ap some (omega arith)

released :
    (b : Bool) (o : Option ℕ) (n : ℕ)
    → (if b
        then changed (λ m. m - n) (if b then changed (λ m. m + n) o else o)
        else (if b then changed (λ m. m + n) o else o))
      ≡ o
released true o n = sub_add o n
released false o n = refl

-- A refund of a reservation gives back what it added.
pub refund-SameHeld :
    (h : ReservationHandle) (db db' : Db)
    → (h.reserved ≡ false → h.estimate ≡ 0)
    → Holding h.user_id h.estimate db db'
    → SameHeld db (refund_reservation h db')
unfolding refund_reservation
refund-SameHeld h db db' none_held holding other = elim (Bool-cases h.reserved) [
  | inl e ↦ rw e (
      held-update_all (λ m. m - h.estimate) h.user_id other (release_row h.estimate) db' (λ u. refl)
        (λ u. refl)
      ∙ rw (holding other) (released (str_eq h.user_id other) (held other db) h.estimate))
  | inr e ↦ rw e (
      holding other
      ∙ rw (none_held e) (if_same (str_eq h.user_id other) _ _ (add_none (held other db))))
]

add_twice :
    (o : Option ℕ) (a b : ℕ)
    → changed (λ n. n + b) (changed (λ n. n + a) o) ≡ changed (λ n. n + (a + b)) o
add_twice none a b = refl
add_twice (some n) a b = ap some (omega arith)

grown :
    (c : Bool) (o : Option ℕ) (a b : ℕ)
    → (if c
        then changed (λ n. n + b) (if c then changed (λ n. n + a) o else o)
        else (if c then changed (λ n. n + a) o else o))
      ≡ (if c then changed (λ n. n + (a + b)) o else o)
grown true o a b = add_twice o a b
grown false o a b = refl

Holding-twice :
    (uid : String) (a b : ℕ) (db db' db'' : Db)
    → Holding uid a db db'
    → Holding uid b db' db''
    → Holding uid (a + b) db db''
Holding-twice uid a b db db' db'' first second other =
    second other ∙ rw (first other) (grown (str_eq uid other) (held other db) a b)

-- the handle of a top-up stands for both reservations, and without one nothing more is held
abbrev pub Tops : String → Db → Db → Result ReservationHandle × Db → Type 0
Tops uid db db' (ok h, db'') = Reserves uid db (ok h, db'')
Tops uid db db' (err e, db'') = SameHeld db' db''

plus_none : (m n : ℕ) → n ≡ 0 → m + n ≡ m
plus_none m n h = omega (arith, h)

Reserves-grow :
    (uid : String) (h delta : ReservationHandle) (db db' db'' : Db)
    → Reserves uid db (ok h, db')
    → Reserves uid db' (ok delta, db'')
    → Reserves uid db (ok (grow h delta), db'')
Reserves-grow uid h delta db db' db'' (owner, none_held, first) (owner', none_held', second) =
    elim (Bool-cases delta.reserved) [
      | inl e ↦
          rw e
            (owner, (λ f. cc), Holding-twice uid h.estimate delta.estimate db db' db'' first second)
      | inr e ↦ rw e (
        owner,
        none_held,
        subst (λ n. Holding uid n db db'') (plus_none h.estimate delta.estimate (none_held' e))
            (Holding-twice uid h.estimate delta.estimate db db' db'' first second),
      )
    ]

-- A top-up of a reservation that goes through leaves the estimate of its grown handle reserved, and
-- one that is refused changes what is reserved for nobody.
pub increase_reservation-Tops :
    (env : Env) (h : ReservationHandle) (additional : ℤ) (model : Option String)
    (strategy : Option (List ℕ)) (db db' : Db)
    → Reserves h.user_id db (ok h, db')
    → Tops h.user_id db db' (increase_reservation env h additional model strategy db')
unfolding increase_reservation
increase_reservation-Tops env h additional model strategy db db' reserves =
    if_holds (λ (m : Action ReservationHandle). Tops h.user_id db db' (m db'))
      (pos_part additional == 0) _ _ reserves
      (go (reserve_budget env h.user_id additional model strategy db')
        (reserve_budget-Reserves env h.user_id additional model strategy db'))
  where
    go :
        (r : Result ReservationHandle × Db)
        → Reserves h.user_id db' r
        → Tops h.user_id db db'
            (elim r.0 [ ok delta ↦ (ok (grow h delta), r.1) | err e ↦ (err e, r.1) ])
    go (ok delta, db'') more = Reserves-grow h.user_id h delta db db' db'' reserves more
    go (err e, db'') same = same

module _ (uid : String) (h : ReservationHandle) (a b : Db) where
  -- Nothing is reserved or released after the reservation.
  pub Reserves-then : (c : Db) → Reserves uid a (ok h, b) → SameHeld b c → Reserves uid a (ok h, c)
  Reserves-then c (owner, none_held, holding) same =
      (owner, none_held, λ other. same other ∙ holding other)

  pub refund-Reserves : Reserves uid a (ok h, b) → SameHeld a (refund_reservation h b)
  refund-Reserves (owner, none_held, holding) =
      refund-SameHeld h a b none_held (subst (λ u. Holding u h.estimate a b) (sym owner) holding)

  pub increase-Reserves :
      (env : Env) (additional : ℤ) (model : Option String) (strategy : Option (List ℕ))
      → Reserves uid a (ok h, b)
      → Tops uid a b (increase_reservation env h additional model strategy b)
  increase-Reserves env additional model strategy reserves =
      subst (λ u. Tops u a b (increase_reservation env h additional model strategy b)) reserves.0
        (increase_reservation-Tops env h additional model strategy a b
          (subst (λ u. Reserves u a (ok h, b)) (sym reserves.0) reserves))

-- A cost that was not reserved releases nothing.
pub reconcile-SameHeld :
    (uid : String) (strategy : Strategy) (cost : ℕ) (db : Db)
    → SameHeld db (reconcile_reservation (no_reservation uid strategy) (pos cost) db)
unfolding reconcile_reservation
reconcile-SameHeld uid strategy cost db =
    if_holds (SameHeld db) (cost == 0) _ _ (λ other. refl)
      (SameHeld-update uid (λ u. true) (settle_row (no_reservation uid strategy) cost) db
        (λ u. refl) (λ u. refl))
