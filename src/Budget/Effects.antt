-- ===== src/Budget/Effects.antt =====
-- What each transaction does to a property of one user's row.
use mozilla_ai.Common.{
  ◌≡◌, String, Bool, true, Option, none, some, str_eq, str_eq_iff, if◌then◌else◌, ◌&&◌, inl, inr,
  Bool-cases, Option-cases, sym, ap, ◌∙◌, subst,
}
use mozilla_ai.Budget.{User, Db, get_active_user, update_user}
use mozilla_ai.Budget.Rows.{get_active_user-update_user, update_user_hits, hits}

-- A property of the row, where there is one.
abbrev pub Holds : (User → Type 0) → Option User → Type 0
Holds P none = Unit
Holds P (some u) = P u

module _ (uid other : String) (test : User → Bool) (change : User → User) (db : Db)
    (keep : (v : User) → (change v).deleted_at ≡ v.deleted_at) where
  new_row_none :
      get_active_user other db ≡ none
      → get_active_user other (update_user uid test change db).1 ≡ none
  new_row_none e =
      get_active_user-update_user uid other test change db keep
      ∙ elim (Bool-cases (str_eq uid other)) [ inl b ↦ rw (b, e) | inr b ↦ rw (b, e) ]

  new_row_some :
      (r : User)
      → get_active_user other db ≡ some r
      → get_active_user other (update_user uid test change db).1
        ≡ some (if str_eq uid other && test r then change r else r)
  new_row_some r e =
      get_active_user-update_user uid other test change db keep
      ∙ elim (Bool-cases (str_eq uid other)) [ inl b ↦ rw (b, e) | inr b ↦ rw (b, e) ]

  test_reported :
      (r : User)
      → get_active_user other db ≡ some r
      → str_eq uid other ≡ true
      → test r ≡ (update_user uid test change db).0
  test_reported r e b = sym (
      update_user_hits uid test change db
      ∙ ap (hits test) (ap (λ k. get_active_user k db) ((str_eq_iff uid other).0 b) ∙ e))

-- An UPDATE takes a property of the row to one of the new row; on the user's own row the test is what
-- the UPDATE reports.
pub Holds-update :
    (P Q : User → Type 0) (uid other : String) (test : User → Bool) (change : User → User) (db : Db)
    → ((v : User) → (change v).deleted_at ≡ v.deleted_at)
    → ((r : User)
        → P r
        → (str_eq uid other ≡ true → test r ≡ (update_user uid test change db).0)
        → Q (if str_eq uid other && test r then change r else r))
    → Holds P (get_active_user other db)
    → Holds Q (get_active_user other (update_user uid test change db).1)
Holds-update P Q uid other test change db keep f h =
    elim (Option-cases (get_active_user other db)) [
      | inl e ↦ rw (new_row_none uid other test change db keep e) tt
      | inr (r, e) ↦
          rw (new_row_some uid other test change db keep r e)
            (f r (subst (Holds P) e h) (test_reported uid other test change db keep r e))
    ]
