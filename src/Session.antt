-- ===== src/Session.antt =====
-- The sessions of a user: opening one (`RefreshToken.for_user` of jwt_allauth/tokens/tokens.py),
-- rotating its refresh token (jwt_allauth/token_refresh/serializers.py), closing it
-- (jwt_allauth/logout), and the check of an access token (jwt_allauth/authentication.py).
-- A handler holds `user_sessions_lock` while it writes, so each is one step on the database.
-- A credential arrives as the payload that Simple JWT decoded, or none if it refused the token.
pub mod Rotation
pub mod Protocol
pub mod Invariant
pub mod Steps
pub mod Safety
pub mod Stale
pub mod Replay
pub mod Renewal
pub mod Keys
pub mod Credentials
pub mod Refinement
pub mod Refusals
pub mod Frame
use jwt_allauth.Base.{
  ℕ, ◌+◌, Bool, true, not, ◌&&◌, ◌||◌, Option, none, some, List, [], ◌∷◌, ◌++◌, ltb, ◌==◌,
  if◌then◌else◌, Result, ok, err, Exec, pure, raise, gets, or_raise, atomic, raise_if, modify,
  ◌>>=◌, ◌>>◌, delete, exists, first, count,
}
use jwt_allauth.Db.{RefreshTokenWhitelistModel, User, Db}
use jwt_allauth.Failure.{
  RotationRejected, replayed, disabled, session_expired, inactive_user, Failure, rejected,
  invalid_token, token_error, session_over, not_verified_email, validation_error, key_error,
  does_not_exist,
}
use jwt_allauth.Settings.{Settings}
use jwt_allauth.Token.{
  Payload, Jwt, Request, set_session, set_session_iat, session_is_over, cap_exp_to_session,
  access_token, set_user_role, set_email_verified, set_user_attributes, is_email_verified,
  sync_user_claims,
}

-- The queries on the whitelist and on the users.
abbrev pub has_jti : ℕ → RefreshTokenWhitelistModel → Bool
has_jti jti row = row.jti == jti

abbrev pub in_session : ℕ → RefreshTokenWhitelistModel → Bool
in_session session row = row.session == session

abbrev pub of_user : ℕ → RefreshTokenWhitelistModel → Bool
of_user user row = row.user == user

-- `Q(jti=jti) | Q(session=session)`
abbrev pub closes : ℕ → ℕ → RefreshTokenWhitelistModel → Bool
closes jti session row = has_jti jti row || in_session session row

abbrev pub has_pk : ℕ → RefreshTokenWhitelistModel → Bool
has_pk pk row = row.pk == pk

abbrev pub has_id : ℕ → User → Bool
has_id id user = user.id == id

abbrev pub new_row : ℕ → ℕ → ℕ → ℕ → ℕ → Bool → RefreshTokenWhitelistModel
new_row now pk jti session user enabled = record {
  pk = pk;
  created = now;
  jti = jti;
  enabled = enabled;
  session = session;
  user = user;
}

-- RefreshTokenWhitelistSerializer: `is_valid` finds the jti free and the user there, then `save`.
unfoldable pub save_session : ℕ → ℕ → ℕ → ℕ → Bool → Exec Db Failure (Unit {0})
save_session now jti session user enabled s =
    if exists (has_jti jti) s.whitelist || not (exists (has_id user) s.users)
    then (err validation_error, s)
    else (
      ok tt,
      record s {
        whitelist = s.whitelist ++ new_row now s.next_pk jti session user enabled ∷ [];
        next_pk = s.next_pk + 1;
      },
    )

-- `except ValidationError as e: raise InvalidToken`
abbrev as_invalid_token : {A : Type 0} → Exec Db Failure A → Exec Db Failure A
as_invalid_token m s =
    let (r, s') = m s in
    elim r [
      | ok a ↦ (ok a, s')
      | err e ↦ elim e [ validation_error ↦ (err invalid_token, s') | other ↦ (err other, s') ]
    ]

-- The claims of `RefreshToken.for_user`, up to the point where the token is stored.
unfoldable pub new_session_token :
    Settings → Jwt → Request → Option Bool → User → Db → Result Failure Payload
unfolding set_session set_session_iat cap_exp_to_session set_user_role set_email_verified
    set_user_attributes
new_session_token cfg j req verified user s =
    let token = j.new_token req.now req.fresh_jti user.id in
    let opened = set_session_iat j req.now (set_session req.fresh_session token) in
    set_user_attributes cfg req user
      (set_email_verified s user verified (set_user_role user (cap_exp_to_session cfg j opened)))

unfoldable pub for_user :
    Settings → Jwt → Request → Bool → Option Bool → User → Exec Db Failure Payload
for_user cfg j req enabled verified user = do
  token ← λ s. (new_session_token cfg j req verified user s, s)
  as_invalid_token (save_session req.now token.jti req.fresh_session user.id enabled)
  pure token

pub record Tokens : Type 0 where
  pub access : Payload
  pub refresh : Payload

-- `TokenRefreshSerializer.rotate`, its checks: the row that is consumed, its user, and the
-- payload, anchored if it carries no session start.
abbrev pub Admission : Type 0
Admission = RefreshTokenWhitelistModel × User × Payload

-- `query_set[0].user`
abbrev user_of : RefreshTokenWhitelistModel → Exec Db Failure User
user_of row s = or_raise (first (has_id row.user) s.users) does_not_exist s

abbrev require_enabled : RefreshTokenWhitelistModel → Exec Db Failure (Unit {0})
require_enabled row =
    if row.enabled then pure tt else do user ← user_of row; raise (rejected (disabled user))

abbrev anchor : Settings → Jwt → ℕ → Payload → Exec Db Failure Payload
anchor cfg j now refresh = elim refresh.session_iat [
  | none ↦ pure (set_session_iat j now refresh)
  | some start ↦
      if session_is_over cfg j now refresh then raise (rejected session_expired) else pure refresh
]

unfoldable pub admit : Settings → Jwt → Request → Payload → Exec Db Failure Admission
unfolding set_session_iat session_is_over
admit cfg j req refresh = do
  found ← gets (λ s. first (has_jti refresh.jti) s.whitelist)
  row ← or_raise found (rejected replayed)
  require_enabled row
  anchored ← anchor cfg j req.now refresh
  user ← user_of row
  raise_if (not user.is_active) (rejected (inactive_user user))
  pure (row, user, anchored)

-- The successor: a new `jti`, `exp` and `iat`, capped at the deadline of the session.
unfoldable pub renew : Settings → Jwt → Request → Payload → Payload
unfolding cap_exp_to_session
renew cfg j req p =
    cap_exp_to_session cfg j
      (record p { jti = req.fresh_jti; exp = j.exp_at req.now; iat = j.to_epoch req.now })

-- The rest of `rotate`: the access token, the claim of the row and the successor's row.
unfoldable pub hand_out : Settings → Jwt → Request → Admission → Exec Db Failure Tokens
unfolding renew
hand_out cfg j req (row, user, anchored) = do
  synced ← λ s. (sync_user_claims cfg req s user anchored, s)
  deleted ← gets (λ s. count (has_pk row.pk) s.whitelist)
  modify (λ s. record s { whitelist = delete (has_pk row.pk) s.whitelist })
  raise_if (deleted == 0) (rejected replayed)
  let next = renew cfg j req synced
  owner ← or_raise next.user_id key_error
  session ← or_raise next.session key_error
  save_session req.now next.jti session owner true
  pure (record { access = access_token cfg j req.now synced; refresh = next })

unfoldable pub rotate : Settings → Jwt → Request → Payload → Exec Db Failure Tokens
rotate cfg j req refresh = do admission ← admit cfg j req refresh; hand_out cfg j req admission

abbrev pub close_session : ℕ → Db → Db
close_session session s = record s { whitelist = delete (in_session session) s.whitelist }

abbrev pub close_sessions_of : ℕ → Db → Db
close_sessions_of user s = record s { whitelist = delete (of_user user) s.whitelist }

-- `TokenRefreshSerializer.reject`: the revocation, outside of the transaction, and the error.
unfoldable pub reject : ℕ → RotationRejected → Exec Db Failure Tokens
reject session replayed s = (err invalid_token, close_session session s)
reject session (disabled user) s =
    (err (if is_email_verified s user.id then invalid_token else not_verified_email), s)
reject session session_expired s = (err session_over, close_session session s)
reject session (inactive_user user) s = (err invalid_token, close_sessions_of user.id s)

-- `except RotationRejected`
abbrev catch_rejection :
    {A : Type 0} → Exec Db Failure A → (RotationRejected → Exec Db Failure A) → Exec Db Failure A
catch_rejection m handler s =
    let (r, s') = m s in
    elim r [
      | ok a ↦ (ok a, s')
      | err e ↦ elim e [ rejected reason ↦ handler reason s' | other ↦ (err other, s') ]
    ]

-- `TokenRefreshSerializer.validate`
unfoldable pub refresh_token : Settings → Jwt → Request → Option Payload → Exec Db Failure Tokens
refresh_token cfg j req decoded = do
  refresh ← or_raise decoded token_error
  session ← or_raise refresh.session invalid_token
  catch_rejection (atomic (rotate cfg j req refresh)) (reject session)

-- `RemoveRefreshTokenSerializer.validate`, for the user that the request is authenticated as.
unfoldable pub logout : Option ℕ → Option Payload → Exec Db Failure (Unit {0})
logout caller decoded = do
  refresh ← or_raise decoded token_error
  user ← or_raise caller invalid_token
  session ← or_raise refresh.session invalid_token
  owner ← or_raise refresh.user_id key_error
  raise_if (not (user == owner)) invalid_token
  found ← gets (λ s. count (closes refresh.jti session) s.whitelist)
  raise_if (not (ltb 0 found)) invalid_token
  modify (λ s. record s { whitelist = delete (closes refresh.jti session) s.whitelist })

-- `LogoutAllView.logout`
unfoldable pub logout_all : ℕ → Exec Db Failure (Unit {0})
logout_all user = modify (close_sessions_of user)

unfoldable pub session_is_active : ℕ → Db → Bool
session_is_active session s = exists (in_session session) s.whitelist

-- `validate_session` of jwt_allauth/authentication.py
unfoldable pub validate_session : Settings → Payload → Exec Db Failure (Unit {0})
unfolding session_is_active
validate_session cfg token s = elim token.session [
  | none ↦ (ok tt, s)
  | some session ↦
      if cfg.access_token_session_check && not (session_is_active session s)
      then (err invalid_token, s)
      else (ok tt, s)
]

-- The whitelist half of `VerifyEmailView.get` (jwt_allauth/registration/email_verification/views.py):
-- `first()` of the rows of the user, enabled and saved.
unfoldable pub enable_first : ℕ → List RefreshTokenWhitelistModel → List RefreshTokenWhitelistModel
enable_first user [] = []
enable_first user (row ∷ rows) =
    if row.user == user then record row { enabled = true } ∷ rows else row ∷ enable_first user rows

unfoldable pub enable_session : ℕ → Db → Db
unfolding enable_first
enable_session user s = record s { whitelist = enable_first user s.whitelist }
