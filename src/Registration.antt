-- ===== src/Registration.antt =====
-- Signing up (jwt_allauth/registration/serializers.py and views.py). The open form's checks of names
-- and passwords have passed; the parameter `Adapter` is what allauth does for a new account.
pub mod Enumeration
pub mod Spares
pub mod Names
pub mod Invited
pub mod Reserved
use jwt_allauth.Accounts.{superseded_accounts, delete_users}
use jwt_allauth.Base.{
  ℕ, Bool, true, false, not, ◌&&◌, ◌||◌, Option, none, some, ◌==◌, is_some, if◌then◌else◌, Result,
  ok, err, Exec, pure, raise, gets, lift, atomic, raise_if, modify, ◌>>=◌, ◌>>◌,
}
use jwt_allauth.Db.{User, Db}
use jwt_allauth.Failure.{Failure, validation_error}
use jwt_allauth.Mfa.Gate.{is_required}
use jwt_allauth.Mfa.Storage.{create_setup_challenge}
use jwt_allauth.Session.{for_user}
use jwt_allauth.Settings.{
  Settings, enumeration_prevented, verification_enabled, verification_is_mandatory,
  self_registration_enabled,
}
use jwt_allauth.Token.{Payload, Jwt, Request, access_token}

-- allauth: the account with its address (`new_user`, `save_user`, `setup_user_email`), which the hook
-- `custom_signup` of the serializer sees before its row is written, the confirmation of the first
-- address, and `complete_signup`.
pub record Adapter : Type 0 where
  pub save_user : (User → User) → ℕ → Db → User × Db
  pub confirm_email : ℕ → Db → Db
  pub complete_signup : User → Db → Db

-- The endpoint: `prevent_enumeration` of the serializer, and whether a live invitation reserves an
-- address, which it does not for the endpoint that invites.
pub record Endpoint : Type 0 where
  pub prevent_enumeration : Bool
  pub reserve_invitations : Bool

abbrev pub open_endpoint : Endpoint
open_endpoint = record { prevent_enumeration = true; reserve_invitations = true }

abbrev pub invitation_endpoint : Endpoint
invitation_endpoint = record { prevent_enumeration = false; reserve_invitations = false }

unfoldable pub hide_conflict : Settings → Endpoint → Bool
hide_conflict cfg e = e.prevent_enumeration && enumeration_prevented cfg

-- `validate_email`: whether the address is in use and the conflict is hidden
unfoldable pub validate_email : Settings → Endpoint → ℕ → ℕ → Db → Result Failure Bool
unfolding hide_conflict
validate_email cfg e now email s =
    if cfg.allauth_unique_email
      && not (is_some (superseded_accounts cfg now email e.reserve_invitations s))
    then (if hide_conflict cfg e then ok true else err validation_error)
    else ok false

-- `_claim_email`, given what `validate_email` found. The notice that is mailed is left out.
unfoldable pub claim_email : Settings → Endpoint → ℕ → ℕ → Bool → Db → Result Failure Bool × Db
unfolding hide_conflict
claim_email cfg e now email account_already_exists s =
    if account_already_exists || not cfg.allauth_unique_email
    then (ok (not account_already_exists), s)
    else elim (superseded_accounts cfg now email e.reserve_invitations s) [
      | none ↦ if not (hide_conflict cfg e) then (err validation_error, s) else (ok false, s)
      | some superseded ↦ (ok true, delete_users superseded s)
    ]

-- The account, and its confirmation where addresses are not verified.
unfoldable pub create_account : Settings → Adapter → ℕ → Db → User × Db
create_account cfg a email s =
    let (user, s') = a.save_user (λ user. user) email s in
    (user, if not (verification_enabled cfg) then a.confirm_email user.id s' else s')

-- No account, where the address is not claimed.
abbrev pub make_account : Settings → Adapter → ℕ → Bool → Exec Db Failure (Option User)
make_account cfg a email claimed s =
    let (user, s') = create_account cfg a email s in
    if not claimed then (ok none, s) else (ok (some user), s')

-- `RegisterSerializer.save`, a transaction
unfoldable pub save_account :
    Settings → Endpoint → Adapter → ℕ → ℕ → Bool → Exec Db Failure (Option User)
unfolding claim_email
save_account cfg e a now email account_already_exists = atomic (do
  claimed ← claim_email cfg e now email account_already_exists
  make_account cfg a email claimed)

pub data RegisterResponse : Type 0 where
  not_found : RegisterResponse
  mfa_setup_required : ℕ → Bool → RegisterResponse
  created : Bool → Option Payload → Option Payload → RegisterResponse

-- No token is made under mandatory verification alone, so the first clause has the notice in its body.
-- `get_response_data`, and the cookie that `create` sets: the notice or the access token, and the
-- refresh token in the body or the cookie
unfoldable pub response_of : Settings → Jwt → ℕ → Option Payload → RegisterResponse
response_of cfg j now none = created (verification_is_mandatory cfg) none none
response_of cfg j now (some token) =
    if verification_is_mandatory cfg
    then created true none (some token)
    else created false (some (access_token cfg j now token)) (some token)

-- `complete_signup`, and the challenge that the required second factor starts with
unfoldable pub after_signup : Adapter → Option User → Db → Db
after_signup a none s = s
after_signup a (some user) s = a.complete_signup user s

unfoldable pub start_setup : ℕ → ℕ → Option User → Db → Db
start_setup now fresh none s = s
start_setup now fresh (some user) s = create_setup_challenge now fresh user.id s

-- The token of the new account, none where no account was made or conflicts are hidden.
unfoldable pub first_token :
    Settings → Jwt → Request → Option User → Exec Db Failure (Option Payload)
first_token cfg j req none s = (ok none, s)
first_token cfg j req (some user) s =
    let (r, s') = for_user cfg j req (not (verification_is_mandatory cfg)) none user s in
    if enumeration_prevented cfg
    then (ok none, s)
    else (elim r [ ok token ↦ ok (some token) | err e ↦ err e ], s')

-- `perform_create` after the account is saved, and the response
unfoldable pub answer :
    Settings → Jwt → Request → ℕ → Option User → Exec Db Failure RegisterResponse
unfolding start_setup first_token response_of
answer cfg j req fresh user =
    if is_required cfg.totp_mode
    then (do
      modify (start_setup req.now fresh user)
      pure (mfa_setup_required fresh (verification_is_mandatory cfg)))
    else (do token ← first_token cfg j req user; pure (response_of cfg j req.now token))

-- `RegisterView.create`
unfoldable pub register :
    Settings → Adapter → Jwt → Request → ℕ → ℕ → Exec Db Failure RegisterResponse
unfolding validate_email save_account after_signup answer
register cfg a j req fresh email =
    if not (self_registration_enabled cfg) then pure not_found else (do
      taken ← λ s. (validate_email cfg open_endpoint req.now email s, s)
      user ← save_account cfg open_endpoint a req.now email taken
      modify (after_signup a user)
      answer cfg j req fresh user)
