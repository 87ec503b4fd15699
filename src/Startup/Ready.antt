-- ===== src/Startup/Ready.antt =====
-- `JWTAllauthAppConfig.ready` of jwt_allauth/apps.py: the defaults that the startup fills in.
use Prim.Native.String.{String}
use text.Mathlib.Text.{◌==◌}
use jwt_allauth.Base.{
  ℕ, ◌*◌, Bool, true, false, not, ◌&&◌, ◌||◌, Option, none, some, List, [], ◌∷◌, ◌++◌, length,
  exists, leb, is_some, if◌then◌else◌, Result, ok, err,
}
use jwt_allauth.Db.{day, second}
use jwt_allauth.Settings.{Method, is_off, flag}
use jwt_allauth.Startup.Project.{
  StartupError, StartupWarning, Value, Dict, Project, warn_if, resolve_email_verification,
  reject_unsupported, value_error, deprecated, signing_falls_back, nothing, boolean, number, string,
  strings, duration,
}

-- `_get_signing_key`
unfoldable pub get_signing_key : Project → String × List StartupWarning
get_signing_key p = elim p.jwt_allauth_secret_key [
  | some key ↦ (key, [])
  | none ↦ elim p.jwt_secret_key [
    | some key ↦ (key, deprecated ∷ [])
    | none ↦ (p.secret_key, warn_if (not p.debug) signing_falls_back)
  ]
]

-- `_get_setting`, for a new name and an old one
unfoldable pub get_setting : Option ℕ → Option ℕ → ℕ → ℕ × List StartupWarning
get_setting (some value) old default = (value, [])
get_setting none (some value) default = (value, deprecated ∷ [])
get_setting none none default = (default, [])

-- `if not hasattr(settings, name)`
abbrev pub or_default {ℓ} : {A : Type ℓ} → Option A → A → Option A
or_default none default = some default
or_default (some value) default = some value

-- `x in xs`
unfoldable pub is_in : String → List String → Bool
is_in x [] = false
is_in x (y ∷ ys) = y == x || is_in x ys

-- `settings.ACCOUNT_LOGIN_METHODS != {'email'}`
unfoldable pub only_email : List String → Bool
unfolding is_in
only_email methods = is_in "email" methods && not (exists (λ m. not (m == "email")) methods)

-- `sorted(settings.ACCOUNT_SIGNUP_FIELDS) != [...]`: the three, once each
unfoldable pub only_signup_fields : List String → Bool
unfolding is_in
only_signup_fields fields =
    leb (length fields) 3
    && is_in "email*" fields
    && is_in "password1*" fields
    && is_in "password2*" fields

abbrev pub login_methods : List String
login_methods = "email" ∷ []

abbrev pub signup_fields : List String
signup_fields = "email*" ∷ "password1*" ∷ "password2*" ∷ []

abbrev refuses : Option (List String) → (List String → Bool) → Bool
refuses none accepts = false
refuses (some declared) accepts = not (accepts declared)

-- What `_default_allauth` writes, for the method that was resolved.
unfoldable pub fill_allauth : Method → Project → Project
fill_allauth method p = record p {
  account_email_verification = some method;
  email_verification = flag (not (is_off method));
  account_adapter = or_default p.account_adapter "jwt_allauth.adapter.JWTAllAuthAdapter";
  mfa_adapter = or_default p.mfa_adapter "jwt_allauth.mfa.adapter.JWTAllAuthMFAAdapter";
  socialaccount_adapter =
      if p.socialaccount_installed
      then or_default p.socialaccount_adapter
          "jwt_allauth.social.adapter.JWTAllAuthSocialAccountAdapter"
      else p.socialaccount_adapter;
  account_login_methods = some login_methods;
  account_signup_fields = some signup_fields;
  site_id = or_default p.site_id 1;
  unique_email = or_default p.unique_email true;
  account_email_subject_prefix = or_default p.account_email_subject_prefix "";
}

-- `_default_allauth`
unfoldable pub default_allauth : Project → Result StartupError (Project × List StartupWarning)
unfolding fill_allauth
default_allauth p = elim (resolve_email_verification p) [
  | err e ↦ err e
  | ok (method, warnings) ↦
      if refuses p.account_login_methods only_email
        || refuses p.account_signup_fields only_signup_fields
      then err value_error
      else ok (fill_allauth method p, warnings)
]

-- The dicts of Python: `k in d`, `d[k]`, and the loop that fills in what is missing.
unfoldable pub lookup : String → Dict → Option Value
lookup k [] = none
lookup k ((j, v) ∷ d) = if j == k then some v else lookup k d

unfoldable pub fill : Dict → Dict → Dict
unfolding lookup
fill [] declared = declared
fill ((k, v) ∷ defaults) declared =
    fill defaults (if is_some (lookup k declared) then declared else declared ++ (k, v) ∷ [])

-- The defaults of `SIMPLE_JWT`.
unfoldable pub simple_jwt_settings : Project → Dict
unfolding get_signing_key get_setting
simple_jwt_settings p =
    ("BLACKLIST_AFTER_ROTATION", boolean false)
    ∷ ("UPDATE_LAST_LOGIN", boolean true)
    ∷ ("ALGORITHM", string "HS256")
    ∷ ("SIGNING_KEY", string (get_signing_key p).0)
    ∷ ("VERIFYING_KEY", string "")
    ∷ ("AUDIENCE", nothing)
    ∷ ("ISSUER", nothing)
    ∷ ("JSON_ENCODER", nothing)
    ∷ ("JWK_URL", nothing)
    ∷ ("LEEWAY", number 0)
    ∷ ("AUTH_HEADER_TYPES", strings ("Bearer" ∷ []))
    ∷ ("AUTH_HEADER_NAME", string "HTTP_AUTHORIZATION")
    ∷ ("USER_ID_FIELD", string "id")
    ∷ ("USER_ID_CLAIM", string "user_id")
    ∷ (
      "USER_AUTHENTICATION_RULE",
      string "rest_framework_simplejwt.authentication.default_user_authentication_rule",
    )
    ∷ ("AUTH_TOKEN_CLASSES", strings ("rest_framework_simplejwt.tokens.AccessToken" ∷ []))
    ∷ ("TOKEN_TYPE_CLAIM", string "token_type")
    ∷ ("TOKEN_USER_CLASS", string "rest_framework_simplejwt.models.TokenUser")
    ∷ ("JTI_CLAIM", string "jti")
    ∷ ("ROTATE_REFRESH_TOKENS", boolean true)
    ∷ (
      "ACCESS_TOKEN_LIFETIME",
      duration
          (get_setting p.jwt_allauth_access_token_lifetime p.jwt_access_token_lifetime
            (30 * 60 * second)).0,
    )
    ∷ (
      "REFRESH_TOKEN_LIFETIME",
      duration
          (get_setting p.jwt_allauth_refresh_token_lifetime p.jwt_refresh_token_lifetime
            (14 * day)).0,
    )
    ∷ []

abbrev pub simple_jwt_warnings : Project → List StartupWarning
simple_jwt_warnings p =
    (get_signing_key p).1
    ++ (get_setting p.jwt_allauth_access_token_lifetime p.jwt_access_token_lifetime 0).1
    ++ (get_setting p.jwt_allauth_refresh_token_lifetime p.jwt_refresh_token_lifetime 0).1

-- `_default_simplejwt`
unfoldable pub default_simplejwt : Project → Project
unfolding fill
default_simplejwt p = record p {
  simple_jwt = some (elim p.simple_jwt [
    | none ↦ simple_jwt_settings p
    | some declared ↦ fill (simple_jwt_settings p) declared
  ]);
}

abbrev pub authentication_classes : Dict
authentication_classes =
    (
      "DEFAULT_AUTHENTICATION_CLASSES",
      strings ("jwt_allauth.authentication.JWTAllAuthAuthentication" ∷ []),
    )
    ∷ []

abbrev pub account_middleware : String
account_middleware = "allauth.account.middleware.AccountMiddleware"

-- `_default_rest_framework`
unfoldable pub default_rest_framework : Project → Project
unfolding fill is_in
default_rest_framework p = record p {
  rest_framework = some (elim p.rest_framework [
    | none ↦ authentication_classes
    | some declared ↦ fill authentication_classes declared
  ]);
  authentication_backends = or_default p.authentication_backends (
      "django.contrib.auth.backends.ModelBackend"
      ∷ "allauth.account.auth_backends.AuthenticationBackend" ∷ []);
  middleware =
      if is_in account_middleware p.middleware
      then p.middleware
      else p.middleware ++ account_middleware ∷ [];
}

-- `JWTAllauthAppConfig.ready`, less the reload of the two settings modules
unfoldable pub ready : Project → Result StartupError (Project × List StartupWarning)
unfolding reject_unsupported default_allauth default_simplejwt default_rest_framework
ready p = elim (reject_unsupported p) [
  | err e ↦ err e
  | ok _ ↦ elim (default_allauth p) [
    | err e ↦ err e
    | ok (q, warnings) ↦
        ok (default_rest_framework (default_simplejwt q), warnings ++ simple_jwt_warnings q)
  ]
]
