-- ===== src/Budget/Held.antt =====
-- The column `reserved` of every active user, and what an UPDATE does to it.
use mozilla_ai.Common.{
  ℕ, ◌+◌, String, ◌≡◌, refl, ap, ◌∙◌, inl, inr, Bool, ◌&&◌, Option, none, some, if◌then◌else◌,
  Bool-cases, str_eq, str_eq_iff, string_eq, true, false,
}
use mozilla_ai.Budget.{User, Db, get_active_user, update_user}
use mozilla_ai.Budget.Rows.{
  get_active_user-update_user, update_user_hits, hits, changed_row, get_active_user-users,
}

abbrev reserved_of : Option User → Option ℕ
reserved_of none = none
reserved_of (some u) = some u.reserved

-- what is reserved for an active user
abbrev pub held : String → Db → Option ℕ
held uid db = reserved_of (get_active_user uid db)

abbrev pub changed : (ℕ → ℕ) → Option ℕ → Option ℕ
changed g none = none
changed g (some n) = some (g n)

-- nothing is reserved or released
abbrev pub SameHeld : Db → Db → Type 0
SameHeld db db' = (other : String) → held other db' ≡ held other db

-- `estimate` is reserved for the user and nothing for the others
abbrev pub Holding : String → ℕ → Db → Db → Type 0
Holding uid estimate db db' =
    (other : String)
    → held other db'
      ≡ (if str_eq uid other then changed (λ n. n + estimate) (held other db) else held other db)

changed_row-reserved :
    (g : ℕ → ℕ) (test : User → Bool) (change : User → User) (o : Option User)
    → ((u : User) → (change u).reserved ≡ g u.reserved)
    → reserved_of (changed_row test change o)
      ≡ (if hits test o then changed g (reserved_of o) else reserved_of o)
changed_row-reserved g test change none h = refl
changed_row-reserved g test change (some u) h = elim (Bool-cases (test u)) [
  | inl e ↦ rw (e, h u) refl
  | inr e ↦ rw e refl
]

-- An UPDATE that takes `reserved` to `g reserved`, by whether it reports a row.
pub held-update :
    (g : ℕ → ℕ) (uid other : String) (test : User → Bool) (change : User → User) (db : Db)
    → ((u : User) → (change u).reserved ≡ g u.reserved)
    → ((u : User) → (change u).deleted_at ≡ u.deleted_at)
    → held other (update_user uid test change db).1 ≡ (
        if str_eq uid other && (update_user uid test change db).0
        then changed g (held other db)
        else held other db)
held-update g uid other test change db change_reserved keep =
    ap reserved_of (get_active_user-update_user uid other test change db keep)
    ∙ elim (Bool-cases (str_eq uid other)) [
      | inr e ↦ rw e refl
      | inl e ↦
          rw (e, update_user_hits uid test change db, (str_eq_iff uid other).0 e)
            (changed_row-reserved g test change (get_active_user other db) change_reserved)
    ]

pub same_map : (o : Option ℕ) → changed (λ n. n) o ≡ o
same_map none = refl
same_map (some n) = refl

pub if_same : {A : Type 0} (b : Bool) (x y : A) → x ≡ y → (if b then x else y) ≡ y
if_same true x y e = e
if_same false x y e = refl

-- An UPDATE that leaves `reserved` alone.
pub SameHeld-update :
    (uid : String) (test : User → Bool) (change : User → User) (db : Db)
    → ((u : User) → (change u).reserved ≡ u.reserved)
    → ((u : User) → (change u).deleted_at ≡ u.deleted_at)
    → SameHeld db (update_user uid test change db).1
SameHeld-update uid test change db same keep other =
    held-update (λ n. n) uid other test change db same keep
    ∙ if_same _ _ _ (same_map (held other db))

pub SameHeld-users : (a b : Db) → b.users ≡ a.users → SameHeld a b
SameHeld-users a b e other = ap reserved_of (get_active_user-users other b a e)

-- An UPDATE of every row takes the user's `reserved` to `g reserved`.
pub held-update_all :
    (g : ℕ → ℕ) (uid other : String) (change : User → User) (db : Db)
    → ((u : User) → (change u).reserved ≡ g u.reserved)
    → ((u : User) → (change u).deleted_at ≡ u.deleted_at)
    → held other (update_user uid (λ u. true) change db).1
      ≡ (if str_eq uid other then changed g (held other db) else held other db)
held-update_all g uid other change db change_reserved keep =
    ap reserved_of (get_active_user-update_user uid other (λ u. true) change db keep)
    ∙ elim (Bool-cases (str_eq uid other)) [
      | inr e ↦ rw e refl
      | inl e ↦ rw e (all_rows (get_active_user other db))
    ]
  where
    all_rows :
        (o : Option User)
        → reserved_of (changed_row (λ u. true) change o) ≡ changed g (reserved_of o)
    all_rows none = refl
    all_rows (some u) = ap some (change_reserved u)
