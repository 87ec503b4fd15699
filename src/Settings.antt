-- ===== src/Settings.antt =====
-- The settings that the library reads, and what it derives from them (jwt_allauth/utils.py).
-- `get_cookie_max_age` reads a lifetime in microseconds and answers in seconds.
use jwt_allauth.Base.{ℕ, ◌/◌, Bool, true, false, not, Option, none, some, List, if◌then◌else◌}
use jwt_allauth.Claim.{UserAttributes}
use jwt_allauth.Db.{Purpose, second}

-- A verification method by name; `unknown` is any other string.
pub data Method : Type 0 where
  mandatory optional off unknown : Method

abbrev pub is_mandatory : Method → Bool
is_mandatory mandatory = true
is_mandatory _ = false

abbrev pub is_off : Method → Bool
is_off off = true
is_off _ = false

-- `EMAIL_VERIFICATION`: a method by name, or a boolean.
pub data EmailVerification : Type 0 where
  named : Method → EmailVerification
  flag : Bool → EmailVerification

pub data TotpMode : Type 0 where
  totp_disabled totp_optional totp_required : TotpMode

-- `JWT_ALLAUTH_SOCIAL_EMAIL_LINKING`
pub data Linking : Type 0 where
  linking_flag : Bool → Linking
  linking_list : List ℕ → Linking

-- A setting that may be left out, and may be `None`.
pub data MaxAge : Type 0 where
  unset : MaxAge
  explicit : Option ℕ → MaxAge

pub record Settings : Type 0 where
  pub debug : Bool
  pub email_verification : EmailVerification
  pub allauth_method : Method
  pub allauth_prevent_enumeration : Bool
  pub allauth_unique_email : Bool
  pub allauth_confirmation_expire_days : ℕ
  pub invitations : Bool
  pub admin_managed_registration : Bool
  pub cookie_max_age : MaxAge
  pub cookie_secure : Option Bool
  pub as_cookie : Bool
  pub cookie_http_only : Bool
  pub cookie_same_site : ℕ
  pub cookie_path : ℕ
  pub capability_cookie_csrf : Bool
  pub session_on_email_verification : Bool
  pub session_lifetime : Option ℕ
  pub access_token_lifetime : ℕ
  pub refresh_token_lifetime : Option ℕ
  pub default_refresh_token_lifetime : ℕ
  pub password_reset_timeout : ℕ
  pub token_retention : List (Purpose × ℕ)
  pub logout_on_password_change : Bool
  pub access_token_session_check : Bool
  pub totp_mode : TotpMode
  pub mfa_challenge_max_attempts : ℕ
  pub mfa_max_attempts : ℕ
  pub mfa_lockout_seconds : ℕ
  pub registration_allowed_roles : Option (List ℕ)
  pub social_email_linking : Linking
  pub social_require_verified_email : Bool
  pub social_callback_urls : Option (List ℕ)
  pub update_last_login : Bool
  pub user_attributes : UserAttributes

-- `_get_cookie_max_age`
pub get_cookie_max_age : Settings → Option ℕ
get_cookie_max_age s = elim s.cookie_max_age [
  | explicit age ↦ age
  | unset ↦ elim s.refresh_token_lifetime [ some lifetime ↦ some (lifetime / second) | none ↦ none ]
]

-- `_get_cookie_secure`, less the warning
pub get_cookie_secure : Settings → Bool
get_cookie_secure s =
    if not s.debug then true else elim s.cookie_secure [ some secure ↦ secure | none ↦ false ]

-- `_configured_verification_method`
configured_verification_method : Settings → Option Method
configured_verification_method s = elim s.email_verification [
  | named method ↦ some method
  | flag _ ↦ none
]

-- `bool(getattr(settings, 'EMAIL_VERIFICATION', False))` where it is no string
verification_flag : Settings → Bool
verification_flag s = elim s.email_verification [ named _ ↦ true | flag b ↦ b ]

unfoldable pub verification_enabled : Settings → Bool
unfolding configured_verification_method verification_flag
verification_enabled s = elim (configured_verification_method s) [
  | some method ↦ not (is_off method)
  | none ↦ verification_flag s
]

unfoldable pub verification_is_mandatory : Settings → Bool
unfolding configured_verification_method verification_flag
verification_is_mandatory s = elim (configured_verification_method s) [
  | some method ↦ is_mandatory method
  | none ↦ if not (verification_flag s) then false else is_mandatory s.allauth_method
]

unfoldable pub invitations_enabled : Settings → Bool
invitations_enabled s = if s.invitations then true else s.admin_managed_registration

unfoldable pub self_registration_enabled : Settings → Bool
self_registration_enabled s = not s.admin_managed_registration

unfoldable pub enumeration_prevented : Settings → Bool
enumeration_prevented s =
    if not (verification_is_mandatory s) then false else s.allauth_prevent_enumeration
