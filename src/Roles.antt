-- ===== src/Roles.antt =====
-- jwt_allauth/roles.py, and the user manager and constraints of jwt_allauth/models.py.
use jwt_allauth.Base.{
  ℕ, Bool, true, false, not, ◌&&◌, ◌||◌, Option, none, some, ◌==◌, if◌then◌else◌,
}
use jwt_allauth.Db.{User, RoleAttribute, missing, null, stored}

abbrev pub staff_code : ℕ
staff_code = 1000

abbrev pub super_user_code : ℕ
super_user_code = 900

abbrev pub user_code : ℕ
user_code = 0

unfoldable pub role_from_staff_flags : User → ℕ
role_from_staff_flags user =
    if user.is_staff then staff_code else if user.is_superuser then super_user_code else user_code

unfoldable pub get_user_role : User → ℕ
unfolding role_from_staff_flags
get_user_role user = elim user.role [
  | missing ↦ role_from_staff_flags user
  | null ↦ role_from_staff_flags user
  | stored role ↦ role
]

-- The check constraints of JAUser, `~p | q` as SQL reads it; its role column is not null.
unfoldable pub satisfies_constraints : User → Bool
satisfies_constraints user = elim user.role [
  | stored role ↦
      (not user.is_staff || role == staff_code)
      && (not (not user.is_staff && user.is_superuser) || role == super_user_code)
  | _ ↦ false
]

-- The keyword arguments of `create_user` and `create_superuser` that the manager reads.
pub record ExtraFields : Type 0 where
  pub is_staff : Option Bool
  pub is_superuser : Option Bool
  pub role : Option ℕ

abbrev is_true : Option Bool → Bool
is_true (some true) = true
is_true _ = false

abbrev set_default : ℕ → ExtraFields → ExtraFields
set_default role extra = elim extra.role [
  | some _ ↦ extra
  | none ↦ record extra { role = some role }
]

-- `UserManager.create_user`: the fields that it passes on to Django.
unfoldable pub create_user : Bool → ExtraFields → ExtraFields
create_user stores_role extra =
    if stores_role
    then (if is_true extra.is_staff
        then set_default staff_code extra
        else if is_true extra.is_superuser
        then set_default super_user_code extra
        else extra)
    else extra

-- `UserManager.create_superuser`; `none` is the ValueError.
unfoldable pub create_superuser : Bool → ExtraFields → Option ExtraFields
create_superuser stores_role extra =
    let extra' = set_default staff_code extra in
    if stores_role
    then elim extra'.role [
      | some role ↦ if role == staff_code then some extra' else none
      | none ↦ none
    ]
    else some extra

-- The row that Django saves from the fields: a flag or role left out takes its default.
abbrev pub flag_or_false : Option Bool → Bool
flag_or_false (some b) = b
flag_or_false none = false

abbrev pub role_or_default : Option ℕ → RoleAttribute
role_or_default (some role) = stored role
role_or_default none = stored user_code
