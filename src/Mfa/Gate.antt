-- ===== src/Mfa/Gate.antt =====
-- The gate of jwt_allauth/mfa/gate.py and the login of jwt_allauth/login/serializers.py behind it.
-- `available` is whether allauth's MFA is installed.
pub mod Agreement
use jwt_allauth.Base.{
  ℕ, ◌≡◌, ◌↔◌, refl, inl, inr, Bool, true, false, not, ◌&&◌, ◌||◌, Option, none, some, ltb, ◌==◌,
  arith, if◌then◌else◌, map, is_some, Bool-cases, Result, ok, err, Exec, pure, raise, gets,
  or_raise, atomic, raise_if, modify, ◌>>=◌, ◌>>◌, exists,
}
use jwt_allauth.Db.{User, Db}
use jwt_allauth.Failure.{
  Failure, throttled, incorrect_credentials, not_verified_email, no_active_account,
}
use jwt_allauth.Mfa.Attempts.{login_lockout_remaining, create_login_challenge}
use jwt_allauth.Mfa.Storage.{create_setup_challenge}
use jwt_allauth.Session.{Tokens, for_user, has_id}
use jwt_allauth.Settings.{
  Settings, TotpMode, totp_disabled, totp_optional, totp_required, verification_is_mandatory,
}
use jwt_allauth.Token.{Payload, Jwt, Request, access_token, is_email_verified}

abbrev pub is_disabled : TotpMode → Bool
is_disabled totp_disabled = true
is_disabled _ = false

abbrev pub is_required : TotpMode → Bool
is_required totp_required = true
is_required _ = false

unfoldable pub has_totp : Bool → Db → ℕ → Bool
has_totp available s user = if not available then false else exists (λ id. id == user) s.totp

unfoldable pub second_factor_pending : Settings → Bool → Db → ℕ → Bool
unfolding has_totp
second_factor_pending cfg available s user =
    if is_disabled cfg.totp_mode || not available
    then false
    else if not (has_totp available s user)
    then is_required cfg.totp_mode
    else true

-- The payload that precedes the session: enrolment, or a challenge to answer.
pub data Challenge : Type 0 where
  mfa_setup_required : ℕ → Challenge
  mfa_required : ℕ → Challenge

unfoldable pub mfa_challenge : Settings → Bool → ℕ → ℕ → ℕ → Exec Db Failure (Option Challenge)
unfolding has_totp
mfa_challenge cfg available now fresh user s =
    if is_disabled cfg.totp_mode || not available
    then (ok none, s)
    else if not (has_totp available s user)
    then (if is_required cfg.totp_mode
        then (ok (some (mfa_setup_required fresh)), create_setup_challenge now fresh user s)
        else (ok none, s))
    else let retry_after = login_lockout_remaining cfg now user s in
      if ltb 0 retry_after
      then (err (throttled retry_after), s)
      else (ok (some (mfa_required fresh)), create_login_challenge cfg now fresh user s)

-- `allauth_authenticate` of jwt_allauth/utils.py, for the answer of allauth's adapter
unfoldable pub allauth_authenticate : Settings → Option User → Exec Db Failure User
allauth_authenticate cfg authenticated = do
  user ← or_raise authenticated incorrect_credentials
  verified ← gets (λ s. is_email_verified s user.id)
  raise_if (verification_is_mandatory cfg && not verified) not_verified_email
  pure user

pub data LoginData : Type 0 where
  challenge : Challenge → LoginData
  tokens : Tokens → LoginData

-- `update_last_login`
abbrev pub stamp_login : ℕ → ℕ → User → User
stamp_login now id user = if user.id == id then record user { last_login = some now } else user

-- The tokens of a new session
unfoldable pub open_session : Settings → Jwt → Request → User → Exec Db Failure Tokens
open_session cfg j req user = do
  refresh ← for_user cfg j req true none user
  pure (record { access = access_token cfg j req.now refresh; refresh = refresh })

unfoldable pub update_last_login : ℕ → ℕ → Db → Db
update_last_login now id s = record s { users = map (stamp_login now id) s.users }

-- What follows the gate: the challenge as the answer, or the tokens and the stamp.
unfoldable pub after_gate :
    Settings → Jwt → Request → User → Option Challenge → Exec Db Failure LoginData
unfolding update_last_login
after_gate cfg j req user (some c) = pure (challenge c)
after_gate cfg j req user none = do
  t ← open_session cfg j req user
  modify (λ s. if cfg.update_last_login then update_last_login req.now user.id s else s)
  pure (tokens t)

-- `LoginSerializer.validate`, a transaction. The authentication rule of Simple JWT is that the user
-- is active.
unfoldable pub login : Settings → Bool → Jwt → Request → ℕ → Option User → Exec Db Failure LoginData
unfolding after_gate
login cfg available j req fresh authenticated = atomic (do
  user ← allauth_authenticate cfg authenticated
  raise_if (not user.is_active) no_active_account
  pending ← mfa_challenge cfg available req.now fresh user.id
  after_gate cfg j req user pending)
