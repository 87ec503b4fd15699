-- ===== src/Password.antt =====
-- Resetting, setting and changing a password (jwt_allauth/password_reset, jwt_allauth/password_change
-- and `load_capability_user` of jwt_allauth/utils.py). What Django's form says of the new password is
-- the argument `valid`.
pub mod Accepted
pub mod Handover
pub mod Links
pub mod Owner
pub mod Endpoint
use jwt_allauth.Base.{
  ℕ, Bool, true, false, not, ◌&&◌, ◌||◌, Option, none, some, ◌==◌, map, if◌then◌else◌, Result, ok,
  err, Exec, pure, raise, gets, lift, or_raise, raise_if, modify, ◌>>=◌, ◌>>◌, first,
}
use jwt_allauth.Db.{
  GenericTokenModel, User, Db, Purpose, pass_reset, pass_reset_access, pass_set_access,
  email_confirmation, invitation, same_purpose,
}
use jwt_allauth.Failure.{Failure, invalid_token, validation_error, permission_denied, csrf_failed}
use jwt_allauth.Generic.{is_of, create_token, delete_tokens, consume, check_token}
use jwt_allauth.Mfa.Gate.{is_required, open_session}
use jwt_allauth.Mfa.Storage.{create_setup_challenge}
use jwt_allauth.Revocation.{revoke_on_credential_change}
use jwt_allauth.Session.{Tokens, has_id}
use jwt_allauth.Settings.{Settings, invitations_enabled}
use jwt_allauth.Token.{Payload, Jwt, Request, access_token}

-- What the permission puts on the request: the owner of the capability and its identifier.
pub record Capability : Type 0 where
  pub owner : ℕ
  pub jti : ℕ

-- `csrf_enforced` and `enforce_csrf` of jwt_allauth/csrf.py: `checked` is whether Django's check
-- gives no reason against the request.
unfoldable pub csrf_enforced : Settings → Bool
csrf_enforced cfg = cfg.capability_cookie_csrf

unfoldable pub enforce_csrf : Settings → Bool → Result Failure (Unit {0})
unfolding csrf_enforced
enforce_csrf cfg checked =
    if not (csrf_enforced cfg) then ok tt else if checked then ok tt else err csrf_failed

-- `_BaseOneTimeCookiePermission.has_permission`. The cookie is none where it is missing or where
-- Simple JWT refuses it.
unfoldable pub has_permission :
    Settings → Purpose → Bool → Bool → Option Payload → Result Failure Capability
has_permission cfg required authenticated checked none = err permission_denied
has_permission cfg required authenticated checked (some access) =
    if authenticated then err permission_denied else elim access.one_time_permission [
      | none ↦ err permission_denied
      | some permission ↦ elim access.for_user [
        | none ↦ err permission_denied
        | some owner ↦
            if not (same_purpose permission required)
            then err permission_denied
            else elim (enforce_csrf cfg checked) [
              | err e ↦ err e
              | ok _ ↦ ok (record { owner = owner; jti = access.jti })
            ]
      ]
    ]

-- `load_capability_user`
unfoldable pub load_capability_user : ℕ → Exec Db Failure User
load_capability_user id = do
  found ← gets (λ s. first (has_id id) s.users)
  user ← or_raise found invalid_token
  raise_if (not user.is_active) invalid_token
  pure user

-- `SetPasswordForm.save`
abbrev pub with_password : ℕ → User → User
with_password id user = if user.id == id then record user { usable_password = true } else user

unfoldable pub save_password : ℕ → Db → Db
save_password id s = record s { users = map (with_password id) s.users }

-- The answer to a link, with the access token that goes out as the cookie.
pub data Page : Type 0 where
  link_invalid : Page
  capability : Payload → Page

-- The latest capability of a purpose is the only one.
unfoldable pub grant : ℕ → ℕ → ℕ → Purpose → Db → Db
grant now user jti purpose s =
    create_token now user jti purpose (delete_tokens (is_of user purpose) s)

-- The access token of a capability: of a refresh token without a user that carries FOR_USER and
-- ONE_TIME_PERMISSION.
unfoldable pub capability_token : Settings → Jwt → Request → User → Purpose → Payload
capability_token cfg j req user purpose =
    access_token cfg j req.now (record (j.blank_token req.now req.fresh_jti) {
      for_user = some user.id;
      one_time_permission = some purpose;
    })

-- `PasswordResetConfirmView.get`: `signed` is what Django says of the link.
unfoldable pub confirm_reset :
    Settings → Jwt → Request → Option ℕ → (User → Bool) → ℕ → Db → Page × Db
unfolding grant capability_token
confirm_reset cfg j req none signed digest s = (link_invalid, s)
confirm_reset cfg j req (some uid) signed digest s = elim (first (has_id uid) s.users) [
  | none ↦ (link_invalid, s)
  | some user ↦
      let (claimed, s') = check_token (signed user) digest pass_reset s in
      if not user.is_active
      then (link_invalid, s)
      else if not claimed
      then (link_invalid, s')
      else (
        capability (capability_token cfg j req user pass_reset_access),
        grant req.now user.id (capability_token cfg j req user pass_reset_access).jti
            pass_reset_access s',
      )
]

pub data PasswordResponse : Type 0 where
  saved : PasswordResponse
  mfa_setup_required : ℕ → PasswordResponse
  session : Tokens → PasswordResponse

-- The start that resetting and setting share: the capability is claimed, the account read again and
-- the password saved, and what the old credentials reach is revoked.
unfoldable pub redeem : Settings → Purpose → Bool → Capability → Exec Db Failure User
unfolding load_capability_user save_password
redeem cfg purpose valid c = do
  claimed ← λ s. let (won, s') = consume c.jti purpose s in (ok won, s')
  raise_if (not claimed) invalid_token
  user ← load_capability_user c.owner
  raise_if (not valid) validation_error
  modify (save_password user.id)
  modify (revoke_on_credential_change cfg user.id)
  pure user

abbrev answer_session : Settings → Jwt → Request → User → Exec Db Failure PasswordResponse
answer_session cfg j req user = do t ← open_session cfg j req user; pure (session t)

-- `ResetPasswordView.post`
unfoldable pub reset_password :
    Settings → Jwt → Request → Bool → Capability → Exec Db Failure PasswordResponse
unfolding redeem
reset_password cfg j req valid c = do
  user ← redeem cfg pass_reset_access valid c
  answer_session cfg j req user

abbrev pub is_confirmation_of : ℕ → GenericTokenModel → Bool
is_confirmation_of user row = is_of user invitation row || is_of user email_confirmation row

-- `SetPasswordView.post`, which is routed only with invitations
unfoldable pub set_password :
    Settings → Jwt → Request → ℕ → Bool → Capability → Exec Db Failure PasswordResponse
unfolding redeem
set_password cfg j req fresh valid c = do
  user ← redeem cfg pass_set_access valid c
  modify (delete_tokens (is_confirmation_of user.id))
  if is_required cfg.totp_mode
      then (λ s. (ok (mfa_setup_required fresh), create_setup_challenge req.now fresh user.id s))
      else answer_session cfg j req user

-- `PasswordChangeView.post`, where `valid` covers the old password if it is asked for
unfoldable pub change_password :
    Settings → Jwt → Request → Bool → ℕ → Exec Db Failure PasswordResponse
unfolding load_capability_user save_password
change_password cfg j req valid caller = do
  user ← load_capability_user caller
  raise_if (not valid) validation_error
  modify (save_password user.id)
  modify (revoke_on_credential_change cfg user.id)
  if not cfg.logout_on_password_change then pure saved else answer_session cfg j req user
