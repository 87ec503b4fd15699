-- ===== src/Password/Endpoint.antt =====
-- The endpoint that resets a password, behind the permission that reads its cookie
-- (`ResetPasswordView` with `ResetPasswordPermission`, and jwt_allauth/csrf.py).
use jwt_allauth.Base.{ℕ, ◌≡◌, Bool, true, false, Option, some, ok, err, Exec}
use jwt_allauth.Db.{Db, Purpose, pass_reset_access, same_purpose}
use jwt_allauth.Failure.{Failure, permission_denied, not_authenticated}
use jwt_allauth.Password.{
  Capability, PasswordResponse, csrf_enforced, has_permission, reset_password,
}
use jwt_allauth.Settings.{Settings}
use jwt_allauth.Token.{Payload, Jwt, Request}

-- What comes with a request: whether an authenticator let it in, what Django's CSRF check says of
-- it, whether the form takes its password, and the cookie.
pub record ResetRequest : Type 0 where
  pub authenticated : Bool
  pub checked : Bool
  pub valid : Bool
  pub cookie : Option Payload

-- `CapabilityCookieViewMixin.permission_denied`: a permission that answers False is a 401 here, and
-- an exception that it raises stays.
unfoldable pub denied : Failure → Failure
denied permission_denied = not_authenticated
denied e = e

unfoldable pub reset_endpoint :
    Settings → Jwt → Request → ResetRequest → Exec Db Failure PasswordResponse
reset_endpoint cfg j req r s =
    elim (has_permission cfg pass_reset_access r.authenticated r.checked r.cookie) [
      | err e ↦ (err (denied e), s)
      | ok c ↦ reset_password cfg j req r.valid c s
    ]

-- What a capability that the permission accepts is made of.
abbrev pub Holds : Settings → Purpose → ResetRequest → Capability → Type 0
Holds cfg required r c =
    (access : Payload) × (r.cookie ≡ some access)
    × (access.jti ≡ c.jti)
    × (access.for_user ≡ some c.owner)
    × ((p : Purpose) × (access.one_time_permission ≡ some p) × (same_purpose p required ≡ true))
    × (r.authenticated ≡ false)
    × (csrf_enforced cfg ≡ true → r.checked ≡ true)

abbrev bearer : ℕ → ℕ → Capability
bearer owner jti = record { owner = owner; jti = jti }
