-- ===== src/Examples/SecondFactor.antt =====
-- A user with TOTP: a challenge, wrong codes and a lockout.
use jwt_allauth.Base.{
  ℕ, ◌+◌, ◌≤◌, ◌<◌, ◌≡◌, ◌⊎◌, refl, Bool, true, false, some, [], ◌∷◌, ◌==◌, ok, exists, count,
  select, delete, first,
}
use jwt_allauth.Db.{GenericTokenModel, User, Db, second, login_challenge, login_attempt}
use jwt_allauth.Examples.{cfg, jwt, jwt-JwtLaws, request, alice, db}
use jwt_allauth.Generic.{is_token, create_token}
use jwt_allauth.Mfa.Attempts.{
  is_recent_attempt, login_lockout_remaining, newest_first, get_elem?, clear_failed_login_attempts,
}
use jwt_allauth.Mfa.Gate.{
  second_factor_pending, mfa_challenge, login, tokens, allauth_authenticate, after_gate, has_totp,
  open_session,
}
use jwt_allauth.Mfa.Gate.Agreement.{login_lets_in}
use jwt_allauth.Mfa.Storage.{
  token_max_age, get_login_challenge_user, newest_live, latest, is_expired,
}
use jwt_allauth.Mfa.Verify.{opened, check_code, verify, after_success}
use jwt_allauth.Mfa.Verify.Lockout.{TokensOf, opened_was_verified}
use jwt_allauth.Session.{has_id, Tokens, for_user, new_session_token, save_session}
use jwt_allauth.Settings.{Settings, verification_is_mandatory}
use jwt_allauth.Token.{
  set_user_attributes, write_attributes, write_attribute, conflicts, is_email_verified,
}
use jwt_allauth.Claim.{attribute_map}

-- A challenge of alice, who has TOTP, and three failures, where three are the limit.
abbrev challenged : Db
challenged = create_token 0 7 60 login_challenge (record db { totp = 7 ∷ [] })

abbrev strict : Settings
strict = record cfg { mfa_max_attempts = 2 }

abbrev failed : Db
failed = create_token 0 7 60 login_attempt (create_token 0 7 60 login_attempt challenged)

-- The right code is 123456.
abbrev accepts : User → ℕ → Bool
accepts user code = code == 123456

abbrev enrolled : Db → ℕ → Bool
enrolled s user = exists (λ id. id == user) s.totp

verified :
    (t : Tokens) × ((verify cfg true jwt (request 1) enrolled accepts 60 123456 challenged).0
      ≡ opened t)
unfolding verify check_code after_success open_session for_user new_session_token save_session
    set_user_attributes write_attributes write_attribute conflicts attribute_map
    get_login_challenge_user newest_live latest is_expired login_lockout_remaining newest_first
    get_elem? select delete count exists first clear_failed_login_attempts
verified = (_, refl)

opened_was_verified_example :
    let s' = (verify cfg true jwt (request 1) enrolled accepts 60 123456 challenged).1 in
    (row : GenericTokenModel) × (user : User) × (latest
        (select (is_token 60 login_challenge) challenged.tokens)
      ≡ some row)
    × (second ≤ row.created + token_max_age)
    × (row.user ≡ user.id)
    × (first (has_id user.id) challenged.users ≡ some user)
    × (accepts user 123456 ≡ true)
    × (enrolled challenged user.id ≡ true)
    × (0 < cfg.mfa_max_attempts
        → count (is_recent_attempt cfg second user.id) challenged.tokens < cfg.mfa_max_attempts)
    × TokensOf cfg jwt jwt-JwtLaws (request 1) user verified.0
    × (exists (is_token 60 login_challenge) s'.tokens ≡ false)
opened_was_verified_example =
    opened_was_verified cfg true jwt jwt-JwtLaws (request 1) enrolled accepts 60 123456 challenged
      verified.0 verified.1

logged_in : (t : Tokens) × ((login cfg true jwt (request 1) 61 (some alice) db).0 ≡ ok (tokens t))
unfolding login allauth_authenticate verification_is_mandatory is_email_verified mfa_challenge
    after_gate has_totp open_session for_user new_session_token save_session set_user_attributes
    write_attributes write_attribute conflicts attribute_map exists
logged_in = (_, refl)

login_lets_in_example :
    (user : User) × (some alice ≡ some user)
    × (user.is_active ≡ true)
    × ((verification_is_mandatory cfg ≡ false) ⊎ (is_email_verified db user.id ≡ true))
    × (second_factor_pending cfg true db user.id ≡ false)
login_lets_in_example =
    login_lets_in cfg true jwt (request 1) 61 (some alice) db logged_in.0 logged_in.1
