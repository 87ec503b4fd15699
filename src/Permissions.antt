-- ===== src/Permissions.antt =====
-- The permissions that read a token (jwt_allauth/permissions.py) and the throttles of a view
-- (jwt_allauth/throttling.py). A token is none where the request carries none.
pub mod Claims
use jwt_allauth.Base.{
  ℕ, Bool, true, false, not, ◌||◌, Option, none, some, List, [], ◌∷◌, ◌++◌, ◌==◌, if◌then◌else◌,
  Result, ok, err, select, exists,
}
use jwt_allauth.Failure.{Failure, value_error}
use jwt_allauth.Roles.{staff_code, super_user_code}
use jwt_allauth.Settings.{Settings}
use jwt_allauth.Token.{Payload}

-- `x in xs`
unfoldable pub contains : ℕ → List ℕ → Bool
contains x xs = exists (λ y. y == x) xs

-- `BasePermission._check_role_permission`; accepted roles that are no list are none.
unfoldable pub check_role_permission : Option (List ℕ) → Bool → Option Payload → Result Failure Bool
unfolding contains
check_role_permission none include_staff auth = err value_error
check_role_permission (some accepted_roles) include_staff none = ok false
check_role_permission (some accepted_roles) include_staff (some token) = elim token.role [
  | none ↦ ok false
  | some role ↦
      let roles_to_check =
        if include_staff
        then accepted_roles ++ staff_code ∷ super_user_code ∷ []
        else accepted_roles in
      ok (contains role roles_to_check)
]

-- `BasePermission.has_permission` and `BasePermissionStaffExcluded.has_permission`
unfoldable pub base_has_permission : Option (List ℕ) → Option Payload → Result Failure Bool
base_has_permission accepted_roles auth = check_role_permission accepted_roles true auth

unfoldable pub staff_excluded_has_permission :
    Option (List ℕ) → Option Payload → Result Failure Bool
staff_excluded_has_permission accepted_roles auth = check_role_permission accepted_roles false auth

-- `IsEmailVerified.has_permission`
unfoldable pub is_email_verified_has_permission : Option Payload → Bool
is_email_verified_has_permission none = false
is_email_verified_has_permission (some token) = elim token.email_verified [
  | none ↦ false
  | some answer ↦ answer
]

-- `RegisterUsersPermission.has_permission`
unfoldable pub register_users_has_permission : Settings → Option Payload → Result Failure Bool
unfolding staff_excluded_has_permission
register_users_has_permission cfg auth =
    let allowed : List ℕ = elim cfg.registration_allowed_roles [
      | none ↦ staff_code ∷ super_user_code ∷ []
      | some roles ↦ roles
    ] in
    staff_excluded_has_permission (some allowed) auth

-- `ExtraThrottlesMixin.get_throttles`, by the classes of the throttles
unfoldable pub get_throttles : List ℕ → List ℕ → List ℕ
get_throttles configured extra = configured ++ select (λ c. not (contains c configured)) extra
