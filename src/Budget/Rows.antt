-- ===== src/Budget/Rows.antt =====
-- What an UPDATE on one user does to the rows that are read back.
use mozilla_ai.Common.{
  ◌≡◌, String, Bool, true, false, Option, none, some, arith, str_eq, str_eq_iff, string_eq,
  if◌then◌else◌, inl, inr, Bool-cases, Option-cases, ap, sym, ◌∙◌, refl,
}
use mozilla_ai.Common.Dict.{lookup, insert, lookup-insert}
use mozilla_ai.Budget.{
  User, Db, get_active_user, update_user, active_only, is_active, require_user, ok,
}

-- the row after the UPDATE, from the row before
abbrev pub changed_row : (User → Bool) → (User → User) → Option User → Option User
changed_row test change none = none
changed_row test change (some u) = some (if test u then change u else u)

-- whether the UPDATE finds the row
abbrev pub hits : (User → Bool) → Option User → Bool
hits test none = false
hits test (some u) = test u

active_only-eq_some :
    (o : Option User) (u : User) → active_only o ≡ some u → (o ≡ some u) × (is_active u ≡ true)
active_only-eq_some none u e = cc
active_only-eq_some (some v) u e = ground arith

update_user-none :
    (uid : String) (test : User → Bool) (change : User → User) (db : Db)
    → get_active_user uid db ≡ none
    → update_user uid test change db ≡ (false, db)
unfolding update_user
update_user-none uid test change db e = ground arith

-- The row is found and the test decides.
pub update_user-some :
    (uid : String) (test : User → Bool) (change : User → User) (db : Db) (u : User)
    → get_active_user uid db ≡ some u
    → update_user uid test change db ≡ (
        if test u
        then (true, record db { users = insert uid (change u) db.users })
        else (false, db))
unfolding update_user
update_user-some uid test change db u e = ground arith

pub get_active_user-insert :
    (uid other : String) (u : User) (db : Db)
    → is_active u ≡ true
    → get_active_user other (record db { users = insert uid u db.users })
      ≡ (if str_eq uid other then some u else get_active_user other db)
unfolding get_active_user
get_active_user-insert uid other u db a = elim (Bool-cases (str_eq uid other)) [
  | inl e ↦ rw (lookup-insert uid other u db.users, e, a)
  | inr e ↦ rw (lookup-insert uid other u db.users, e)
]

pub get_active_user-IsActive :
    (uid : String) (db : Db) (u : User) → get_active_user uid db ≡ some u → is_active u ≡ true
unfolding get_active_user
get_active_user-IsActive uid db u e = (active_only-eq_some (lookup uid db.users) u e).1

module _ (uid other : String) (test : User → Bool) (change : User → User) (db : Db) where
  abbrev Updated : Type 0
  Updated = get_active_user other (update_user uid test change db).1 ≡ (
      if str_eq uid other
      then changed_row test change (get_active_user other db)
      else get_active_user other db)

  same_row : str_eq uid other ≡ true → get_active_user other db ≡ get_active_user uid db
  same_row h = ap (λ k. get_active_user k db) (sym ((str_eq_iff uid other).0 h))

  updated_none : get_active_user uid db ≡ none → Updated
  updated_none e = elim (Bool-cases (str_eq uid other)) [
    | inl h ↦ rw (update_user-none uid test change db e, h, same_row h, e)
    | inr h ↦ rw (update_user-none uid test change db e, h)
  ]

  updated_some :
      (u : User)
      → ((v : User) → (change v).deleted_at ≡ v.deleted_at)
      → get_active_user uid db ≡ some u
      → Updated
  updated_some u keep e =
      let live : is_active (change u) ≡ true = rw (keep u) (get_active_user-IsActive uid db u e) in
      rw (update_user-some uid test change db u e)
        (ground (arith, get_active_user-insert uid other (change u) db live, same_row, e))

  -- The row of the user changes where the test holds, and no other row does.
  pub get_active_user-update_user : ((v : User) → (change v).deleted_at ≡ v.deleted_at) → Updated
  get_active_user-update_user keep = elim (Option-cases (get_active_user uid db)) [
    | inl e ↦ updated_none e
    | inr (u, e) ↦ updated_some u keep e
  ]

-- The UPDATE reports a row exactly where the test holds on the user's row.
pub update_user_hits :
    (uid : String) (test : User → Bool) (change : User → User) (db : Db)
    → (update_user uid test change db).0 ≡ hits test (get_active_user uid db)
update_user_hits uid test change db = elim (Option-cases (get_active_user uid db)) [
  | inl e ↦ rw (update_user-none uid test change db e, e)
  | inr (u, e) ↦ rw (update_user-some uid test change db u e, e) (ground arith)
]

pub row_after :
    (uid : String) (test : User → Bool) (change : User → User) (db : Db) (u : User)
    → ((v : User) → (change v).deleted_at ≡ v.deleted_at)
    → get_active_user uid db ≡ some u
    → get_active_user uid (update_user uid test change db).1 ≡ some (if test u then change u else u)
row_after uid test change db u keep e =
    get_active_user-update_user uid uid test change db keep ∙ rw ((str_eq_iff uid uid).1 refl, e)

-- Only the table of users is read back.
pub get_active_user-users :
    (uid : String) (a b : Db) → a.users ≡ b.users → get_active_user uid a ≡ get_active_user uid b
unfolding get_active_user
get_active_user-users uid a b h = rw h

-- An active row that is not blocked passes.
pub require_user_ok :
    (uid : String) (db : Db) (u : User)
    → get_active_user uid db ≡ some u
    → u.blocked ≡ false
    → require_user uid db ≡ (ok u, db)
unfolding require_user
require_user_ok uid db u e b = ground arith
