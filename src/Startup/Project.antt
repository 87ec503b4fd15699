-- ===== src/Startup/Project.antt =====
-- The settings of a project, and what `JWTAllauthAppConfig` of jwt_allauth/apps.py makes of its
-- verification method. A setting that is left out is none; the name of a method is in lower case.
use Prim.Native.String.{String}
use jwt_allauth.Base.{
  ℕ, Bool, true, false, not, Option, none, some, List, [], ◌∷◌, if◌then◌else◌, Result, ok, err,
}
use jwt_allauth.Settings.{
  Method, mandatory, optional, off, unknown, is_off, EmailVerification, named, flag,
}

pub data StartupError : Type 0 where
  improperly_configured value_error : StartupError

pub data StartupWarning : Type 0 where
  methods_disagree method_ignored never_delivered : StartupWarning
  deprecated signing_falls_back : StartupWarning

-- A value of a settings dict.
pub data Value : Type 0 where
  nothing : Value
  boolean : Bool → Value
  number : ℕ → Value
  string : String → Value
  strings : List String → Value
  duration : ℕ → Value
  other_value : ℕ → Value

abbrev pub Dict : Type 0
Dict = List (String × Value)

-- `JWT_ALLAUTH_SESSION_LIFETIME`, where leaving it out is `None`.
pub data SessionLifetime : Type 0 where
  sliding not_a_timedelta : SessionLifetime
  timedelta : ℕ → SessionLifetime

pub record Project : Type 0 where
  pub debug : Bool
  pub secret_key : String
  pub jwt_allauth_secret_key : Option String
  pub jwt_secret_key : Option String
  pub email_verification : EmailVerification
  pub account_email_verification : Option Method
  pub account_adapter : Option String
  pub mfa_adapter : Option String
  pub socialaccount_installed : Bool
  pub socialaccount_adapter : Option String
  pub account_login_methods : Option (List String)
  pub account_signup_fields : Option (List String)
  pub site_id : Option ℕ
  pub unique_email : Option Bool
  pub account_email_subject_prefix : Option String
  pub rotate_refresh_tokens : Option Bool
  pub blacklist_after_rotation : Option Bool
  pub session_lifetime : SessionLifetime
  pub jwt_allauth_access_token_lifetime : Option ℕ
  pub jwt_access_token_lifetime : Option ℕ
  pub jwt_allauth_refresh_token_lifetime : Option ℕ
  pub jwt_refresh_token_lifetime : Option ℕ
  pub simple_jwt : Option Dict
  pub rest_framework : Option Dict
  pub authentication_backends : Option (List String)
  pub middleware : List String

-- `_resolve_email_verification`: the method, or an error, and the warnings.
abbrev same_method : Method → Method → Bool
same_method mandatory mandatory = true
same_method optional optional = true
same_method off off = true
same_method unknown unknown = true
same_method _ _ = false

abbrev is_unknown : Method → Bool
is_unknown unknown = true
is_unknown _ = false

abbrev pub warn_if : Bool → StartupWarning → List StartupWarning
warn_if true w = w ∷ []
warn_if false w = []

unfoldable pub resolve_named :
    Method → Option Method → Result StartupError (Method × List StartupWarning)
resolve_named method declared =
    if is_unknown method then err improperly_configured else elim declared [
      | none ↦ ok (method, [])
      | some d ↦ ok (method, warn_if (not (same_method d method)) methods_disagree)
    ]

unfoldable pub resolve_flag :
    Bool → Option Method → Result StartupError (Method × List StartupWarning)
resolve_flag false none = ok (off, [])
resolve_flag false (some d) = ok (off, warn_if (not (is_off d)) method_ignored)
resolve_flag true none = ok (mandatory, [])
resolve_flag true (some d) =
    if is_off d
    then ok (off, never_delivered ∷ [])
    else if is_unknown d
    then err improperly_configured
    else ok (d, [])

unfoldable pub resolve_email_verification :
    Project → Result StartupError (Method × List StartupWarning)
unfolding resolve_named resolve_flag
resolve_email_verification p = elim p.email_verification [
  | named method ↦ resolve_named method p.account_email_verification
  | flag on ↦ resolve_flag on p.account_email_verification
]

-- `_reject_unsupported`
unfoldable pub reject_unsupported : Project → Result StartupError (Unit {0})
reject_unsupported p =
    if elim p.rotate_refresh_tokens [ none ↦ false | some on ↦ not on ]
    then err value_error
    else if elim p.blacklist_after_rotation [ none ↦ false | some on ↦ on ]
    then err value_error
    else elim p.session_lifetime [ not_a_timedelta ↦ err value_error | _ ↦ ok tt ]
