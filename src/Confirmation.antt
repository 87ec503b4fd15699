-- ===== src/Confirmation.antt =====
-- Claiming an invitation (`VerifyEmailView._claim_invitation` of
-- jwt_allauth/registration/email_verification/views.py). What allauth does with a key is the argument
-- `confirm`: the database with the address confirmed, or none where it turns the key down.
pub mod Invitation
pub mod Ordinary
pub mod Mail
pub mod Rendering
use jwt_allauth.Base.{
  ℕ, ◌+◌, ◌*◌, Bool, true, false, not, ◌&&◌, ◌||◌, Option, none, some, leb, ◌==◌, if◌then◌else◌,
  first,
}
use jwt_allauth.Db.{
  GenericTokenModel, User, Db, day, invitation, email_confirmation, pass_set_access, same_purpose,
}
use jwt_allauth.Password.{capability_token, grant}
use jwt_allauth.Session.{has_id}
use jwt_allauth.Settings.{Settings, self_registration_enabled}
use jwt_allauth.Token.{Payload, Jwt, Request, is_email_verified}

-- What the browser gets: the failure page, the landing page, or the form with the capability.
pub data Landing : Type 0 where
  verification_failed verified : Landing
  set_password_form : Payload → Landing

-- `filter(token__in=..., purpose__in=..., created__gte=cutoff)`, by the digest of the key and the key
abbrev pub is_live_confirmation : Settings → ℕ → ℕ → ℕ → GenericTokenModel → Bool
is_live_confirmation cfg now digest key row =
    (row.token == digest || row.token == key)
    && (same_purpose row.purpose invitation || same_purpose row.purpose email_confirmation)
    && leb now (row.created + cfg.allauth_confirmation_expire_days * day)

unfoldable pub serves_invitation : Settings → GenericTokenModel → User → Bool
serves_invitation cfg entry user =
    if same_purpose entry.purpose invitation
    then true
    else not (self_registration_enabled cfg) && not user.usable_password

-- `_confirm_key`: whether the key is genuinely bad, and the database after it
unfoldable pub confirm_key : (Db → Option Db) → User → Db → Bool × Db
confirm_key confirm user s = elim (confirm s) [
  | some s' ↦ (false, s')
  | none ↦ (not (is_email_verified s user.id), s)
]

unfoldable pub confirm_without_capability :
    Settings → (Db → Option Db) → User → Db → Option Landing × Db
unfolding confirm_key
confirm_without_capability cfg confirm user s =
    let (failed, s') = confirm_key confirm user s in
    if self_registration_enabled cfg
    then (none, s)
    else if not user.is_active
    then (some verification_failed, s)
    else (some (if failed then verification_failed else verified), s')

-- From the entry and its user on.
unfoldable pub serve_confirmation :
    Settings
    → Jwt
    → Request
    → (Db → Option Db)
    → GenericTokenModel
    → User
    → Db
    → Option Landing × Db
unfolding serves_invitation confirm_key confirm_without_capability capability_token
serve_confirmation cfg j req confirm entry user s =
    let (failed, s') = confirm_key confirm user s in
    if not (serves_invitation cfg entry user)
    then confirm_without_capability cfg confirm user s
    else if not user.is_active
    then (some verification_failed, s)
    else if failed
    then (some verification_failed, s')
    else if user.usable_password
    then (some verified, s')
    else (
      some (set_password_form (capability_token cfg j req user pass_set_access)),
      grant req.now user.id (capability_token cfg j req user pass_set_access).jti pass_set_access
          s',
    )

-- `_claim_invitation`: none where the ordinary confirmation goes on. The foreign key keeps the user of
-- an entry there.
unfoldable pub claim_invitation :
    Settings → Jwt → Request → ℕ → ℕ → (Db → Option Db) → Db → Option Landing × Db
unfolding serve_confirmation
claim_invitation cfg j req digest key confirm s =
    elim (first (is_live_confirmation cfg req.now digest key) s.tokens) [
      | none ↦ if self_registration_enabled cfg then (none, s) else (some verification_failed, s)
      | some entry ↦ elim (first (has_id entry.user) s.users) [
        | none ↦ (some verification_failed, s)
        | some user ↦ serve_confirmation cfg j req confirm entry user s
      ]
    ]
