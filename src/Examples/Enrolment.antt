-- ===== src/Examples/Enrolment.antt =====
-- Alice, whose address is not confirmed, enrols in a second factor that is required, and takes one
-- down that is optional.
use jwt_allauth.Base.{
  ℕ, ◌≡◌, ◌⊎◌, refl, true, false, ◌&&◌, none, some, [], ◌∷◌, ◌++◌, ◌==◌, exists, first, delete,
  if◌then◌else◌,
}
use jwt_allauth.Db.{User, Db, second, setup_challenge}
use jwt_allauth.Examples.{cfg, jwt, request, db}
use jwt_allauth.Examples.Retention.{vault}
use jwt_allauth.Generic.{create_token}
use jwt_allauth.Mfa.Deactivate.{deactivate, deactivation_needs_password}
use jwt_allauth.Mfa.Enrol.{
  Authenticators, AuthenticatorsLaws, EnrolRequest, has_permission, owned_by, activate,
}
use jwt_allauth.Mfa.Enrol.Activation.{Enrols, activation_needs_code}
use jwt_allauth.Mfa.Gate.{second_factor_pending}
use jwt_allauth.Mfa.Storage.{load_setup_secret, store_setup_secret}
use jwt_allauth.Session.{has_id}
use jwt_allauth.Settings.{Settings, totp_required, totp_optional}

-- The right code is 123456 for the secret 42.
abbrev authenticators : Authenticators
authenticators = record {
  activate_totp = λ user plain owners.
      if exists (λ owner. owner == user) owners then none else some (owners ++ user ∷ []);
  validate_code = λ plain code. plain == 42 && code == 123456;
  activate_recovery = λ user owners. owners ++ user ∷ [];
  unused_codes = λ user. 1 ∷ 2 ∷ [];
}

authenticators-AuthenticatorsLaws : AuthenticatorsLaws authenticators
authenticators-AuthenticatorsLaws = record {
  makes = λ user plain owners free. rw free refl;
  once = λ user plain owners taken. rw taken refl;
}

abbrev strict : Settings
strict = record cfg { totp_mode = totp_required }

-- The setup challenge 60 and the secret 42 of alice.
abbrev waiting : Db
waiting = store_setup_secret vault 0 7 42 (
    create_token 0 7 60 setup_challenge (record db {
      emails = record { user = 7; email = 70; verified = false; primary = true } ∷ [];
    }))

abbrev bootstrap : EnrolRequest
bootstrap = record { caller = none; setup_challenge_id = some 60; code = 123456 }

activation_needs_code_example :
    let s' = (activate strict true jwt (request 1) vault authenticators bootstrap waiting).1 in
    (s'.totp ≡ waiting.totp)
    ⊎ ((user : ℕ) × (plain : ℕ) × Enrols second bootstrap user waiting
        × ((load_setup_secret vault second user (has_permission second bootstrap waiting).1).0
            ≡ some plain)
        × (authenticators.validate_code plain 123456 ≡ true)
        × (exists (owned_by user) waiting.totp ≡ false)
        × (s'.totp ≡ waiting.totp ++ user ∷ []))
activation_needs_code_example =
    activation_needs_code strict true jwt (request 1) vault authenticators bootstrap waiting
      authenticators-AuthenticatorsLaws

abbrev enrolled : Db
enrolled = record db { totp = 7 ∷ []; recovery = 7 ∷ [] }

deactivation_needs_password_example :
    let s' = (deactivate cfg true (λ user password. password == 5) 7 5 enrolled).1 in
    (s' ≡ enrolled)
    ⊎ ((user : User) × (first (has_id 7) enrolled.users ≡ some user)
        × (cfg.totp_mode ≡ totp_optional)
        × ((5 == 5) ≡ true)
        × (s' ≡ record enrolled {
          totp = delete (owned_by user.id) enrolled.totp;
          recovery = delete (owned_by user.id) enrolled.recovery;
        })
        × (second_factor_pending cfg true s' user.id ≡ false))
deactivation_needs_password_example =
    deactivation_needs_password cfg true (λ user password. password == 5) 7 5 enrolled
