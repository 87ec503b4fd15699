-- ===== src/Mfa/Enrol.antt =====
-- Enrolment in the second factor: who may enrol (jwt_allauth/mfa/permissions.py), `MFASetupView.post`
-- and `MFAActivateView.post` of jwt_allauth/mfa/views.py. What allauth does is the parameter
-- `Authenticators`; the throttles and the form's check that a code has six characters are left out.
pub mod Activation
pub mod Quiet
pub mod Bootstrap
use jwt_allauth.Base.{
  ℕ, Bool, true, false, not, ◌&&◌, ◌||◌, Option, none, some, List, [], ◌∷◌, ◌++◌, ◌==◌, ◌≡◌,
  if◌then◌else◌, is_some, Result, ok, err, Exec, pure, raise, gets, or_raise, raise_if, modify,
  ◌>>=◌, ◌>>◌, delete, exists, first,
}
use jwt_allauth.Db.{User, Db}
use jwt_allauth.Failure.{Failure, not_authenticated, does_not_exist, integrity_error}
use jwt_allauth.Mfa.Gate.{is_disabled, is_required}
use jwt_allauth.Mfa.Storage.{
  Vault, get_setup_challenge_user, delete_setup_challenge, delete_setup_secret, store_setup_secret,
  load_setup_secret,
}
use jwt_allauth.Session.{Tokens, has_id, for_user}
use jwt_allauth.Settings.{Settings, verification_is_mandatory}
use jwt_allauth.Token.{Payload, Jwt, Request, access_token, is_email_verified}

-- `TOTP.activate`, which makes the authenticator of the user and holds the secret, or raises;
-- `TOTP.validate_code` for a secret; `RecoveryCodes.activate` and the codes it shows.
pub record Authenticators : Type 0 where
  pub activate_totp : ℕ → ℕ → List ℕ → Option (List ℕ)
  pub validate_code : ℕ → ℕ → Bool
  pub activate_recovery : ℕ → List ℕ → List ℕ
  pub unused_codes : ℕ → List ℕ

-- The table allows one authenticator of a type for each user.
pub record AuthenticatorsLaws (x : Authenticators) : Type 0 where
  pub makes :
      (user secret : ℕ) (owners : List ℕ)
      → exists (λ owner. owner == user) owners ≡ false
      → x.activate_totp user secret owners ≡ some (owners ++ user ∷ [])
  pub once :
      (user secret : ℕ) (owners : List ℕ)
      → exists (λ owner. owner == user) owners ≡ true
      → x.activate_totp user secret owners ≡ none

-- The request: the user that the access token names, and the challenge and code of the body.
pub record EnrolRequest : Type 0 where
  pub caller : Option ℕ
  pub setup_challenge_id : Option ℕ
  pub code : ℕ

-- `IsAuthenticatedOrHasMFASetupChallenge.has_permission`: the verdict, with `mfa_setup_user`.
unfoldable pub has_permission : ℕ → EnrolRequest → Db → (Bool × Option User) × Db
has_permission now r s = elim r.caller [
  | some id ↦ ((true, none), s)
  | none ↦ elim r.setup_challenge_id [
    | none ↦ ((false, none), s)
    | some challenge ↦
        let (found, s') = get_setup_challenge_user now challenge s in ((is_some found, found), s')
  ]
]

-- The user that a view enrols: `objects.get` for the caller, or the user of the challenge.
unfoldable pub enrolled_user : EnrolRequest → Option User → Exec Db Failure User
enrolled_user r setup_user s = elim r.caller [
  | some id ↦ or_raise (first (has_id id) s.users) does_not_exist s
  | none ↦ or_raise setup_user not_authenticated s
]

abbrev pub owned_by : ℕ → ℕ → Bool
owned_by user owner = owner == user

pub data SetupResponse : Type 0 where
  setup_disabled setup_not_installed already_activated : SetupResponse
  provisioned : ℕ → SetupResponse

-- `MFASetupView.post`; `generated` is what `generate_totp_secret` gives.
unfoldable pub setup :
    Settings → Bool → Vault → ℕ → ℕ → EnrolRequest → Exec Db Failure SetupResponse
setup cfg available v now generated r = do
  (permitted, setup_user) ← λ s. let (p, s') = has_permission now r s in (ok p, s')
  raise_if (not permitted) not_authenticated
  if is_disabled cfg.totp_mode
      then pure setup_disabled
      else if not available
      then pure setup_not_installed
      else do
        user ← enrolled_user r setup_user
        active ← gets (λ s. exists (owned_by user.id) s.totp)
        if active then pure already_activated else do
          modify (store_setup_secret v now user.id generated)
          pure (provisioned generated)

-- The responses of the activation; `withheld` carries a refresh token that is not enabled and no
-- access token.
pub data ActivateResponse : Type 0 where
  activate_disabled activate_not_installed not_initiated wrong_code : ActivateResponse
  activated : List ℕ → ActivateResponse
  withheld : List ℕ → Payload → ActivateResponse
  opened : List ℕ → Tokens → ActivateResponse

abbrev clear_challenge : Option ℕ → Db → Db
clear_challenge none s = s
clear_challenge (some challenge) s = delete_setup_challenge challenge s

-- The session that a bootstrap opens, enabled or waiting for the confirmation of the address.
unfoldable pub bootstrap_session :
    Settings → Jwt → Request → User → List ℕ → Exec Db Failure ActivateResponse
bootstrap_session cfg j req user codes = do
  verified ← gets (λ s. is_email_verified s user.id)
  let pending = verification_is_mandatory cfg && not verified
  refresh ← for_user cfg j req (not pending) none user
  if pending
      then pure (withheld codes refresh)
      else pure
          (opened codes (record { access = access_token cfg j req.now refresh; refresh = refresh }))

-- What a right code writes: the secret is dropped, the recovery codes are made, and a challenge that
-- came along is used up.
unfoldable pub settle : Authenticators → Option ℕ → User → Db → Db
settle x challenge user s = clear_challenge challenge (
    let s' = delete_setup_secret user.id s in
    record s' { recovery = x.activate_recovery user.id s'.recovery })

-- From a right code on.
unfoldable pub enrol :
    Settings
    → Jwt
    → Request
    → Authenticators
    → EnrolRequest
    → User
    → Exec Db Failure ActivateResponse
enrol cfg j req x r user s =
    let s' = settle x r.setup_challenge_id user s in
    let codes = x.unused_codes user.id in
    if is_some r.setup_challenge_id && is_required cfg.totp_mode
    then bootstrap_session cfg j req user codes s'
    else (ok (activated codes), s')

-- The authenticator is made, asked, and removed again where the code is wrong.
unfoldable pub confirm_code :
    Settings
    → Jwt
    → Request
    → Authenticators
    → EnrolRequest
    → User
    → ℕ
    → Exec Db Failure ActivateResponse
confirm_code cfg j req x r user secret s = elim (x.activate_totp user.id secret s.totp) [
  | none ↦ (err integrity_error, s)
  | some owners ↦
      if x.validate_code secret r.code
      then enrol cfg j req x r user (record s { totp = owners })
      else (ok wrong_code, record s { totp = delete (owned_by user.id) owners })
]

-- From the user on: the setup secret has to be there, and not be empty.
unfoldable pub activate_for :
    Settings
    → Jwt
    → Request
    → Vault
    → Authenticators
    → EnrolRequest
    → User
    → Exec Db Failure ActivateResponse
activate_for cfg j req v x r user s =
    let (stored, s') = load_setup_secret v req.now user.id s in
    elim stored [
      | none ↦ (ok not_initiated, s')
      | some plain ↦
          if plain == v.empty_text
          then (ok not_initiated, s')
          else confirm_code cfg j req x r user plain s'
    ]

-- `MFAActivateView.post`
unfoldable pub activate :
    Settings
    → Bool
    → Jwt
    → Request
    → Vault
    → Authenticators
    → EnrolRequest
    → Exec Db Failure ActivateResponse
activate cfg available j req v x r s =
    let ((permitted, setup_user), s') = has_permission req.now r s in
    let (found, _) = enrolled_user r setup_user s' in
    if not permitted
    then (err not_authenticated, s')
    else if is_disabled cfg.totp_mode
    then (ok activate_disabled, s')
    else if not available
    then (ok activate_not_installed, s')
    else elim found [ err e ↦ (err e, s') | ok user ↦ activate_for cfg j req v x r user s' ]
