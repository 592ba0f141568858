-- ===== src/Pipeline/Users.antt =====
-- `resolve_user_id` of otari/src/gateway/api/routes/_helpers.py.
use mozilla_ai.Common.{
  String, ◌≡◌, refl, inl, inr, Bool, false, not, ◌&&◌, Option, none, some, arith, if◌then◌else◌,
  Bool-cases, str_eq, string_eq,
}

-- the columns of an API key that are read
pub record ApiKey : Type 0 where
  pub id : String
  pub user_id : Option String

-- the user, or which of the caller's four errors is raised
pub data Billed : Type 0 where
  billed : String → Billed
  master_key_error : Billed
  no_api_key_error : Billed
  no_user_error : Billed
  forbidden_user_error : Billed

-- an empty text counts as none
abbrev pub nonempty : Option String → Option String
nonempty none = none
nonempty (some s) = if str_eq s "" then none else some s

abbrev pub names_other : Option String → String → Bool
names_other none key_user_id = false
names_other (some user_id) key_user_id = not (str_eq user_id key_user_id)

abbrev pub for_master : Option String → Billed
for_master none = master_key_error
for_master (some user_id) = billed user_id

abbrev pub for_user : Option String → Bool → Option String → Billed
for_user requested reject_mismatch none = no_user_error
for_user requested reject_mismatch (some key_user_id) =
    if reject_mismatch && names_other requested key_user_id
    then forbidden_user_error
    else billed key_user_id

abbrev pub for_key : Option String → Bool → Option ApiKey → Billed
for_key requested reject_mismatch none = no_api_key_error
for_key requested reject_mismatch (some key) =
    for_user requested reject_mismatch (nonempty key.user_id)

unfoldable pub resolve_user_id : Option String → Option ApiKey → Bool → Bool → Billed
resolve_user_id user_id_from_request api_key is_master_key reject_mismatch =
    if is_master_key
    then for_master (nonempty user_id_from_request)
    else for_key (nonempty user_id_from_request) reject_mismatch api_key

for_user-own :
    (requested : Option String) (reject_mismatch : Bool) (owner : Option String) (user_id : String)
    → for_user requested reject_mismatch owner ≡ billed user_id
    → owner ≡ some user_id
for_user-own requested reject_mismatch none user_id h = cc
for_user-own requested reject_mismatch (some s) user_id h =
    elim (Bool-cases (reject_mismatch && names_other requested s)) [
      | inl e ↦ absurd (ground (arith, h, e))
      | inr e ↦ ground (arith, h, e)
    ]

nonempty-some : (o : Option String) (s : String) → nonempty o ≡ some s → o ≡ some s
nonempty-some none s h = cc
nonempty-some (some r) s h = ground (arith, h)

-- A request whose user is resolved without the master key is billed to the user of its key, whatever
-- user it names.
pub resolve_user_id-own :
    (user_id_from_request : Option String) (api_key : Option ApiKey) (reject_mismatch : Bool)
    (user_id : String)
    → resolve_user_id user_id_from_request api_key false reject_mismatch ≡ billed user_id
    → (key : ApiKey) × (api_key ≡ some key) × (key.user_id ≡ some user_id)
unfolding resolve_user_id
resolve_user_id-own requested none reject_mismatch user_id h = cc
resolve_user_id-own requested (some key) reject_mismatch user_id h = (
  key,
  refl,
  nonempty-some key.user_id user_id
      (for_user-own (nonempty requested) reject_mismatch (nonempty key.user_id) user_id h),
)
