-- ===== src/Examples/Journeys.antt =====
-- Alice logs in and out, and confirms the address that she signed up with.
use jwt_allauth.Base.{◌≡◌, refl, true, false, Option, some, [], ◌∷◌, ok, err, exists, first, map}
use jwt_allauth.Claim.{attribute_map}
use jwt_allauth.Confirmation.Ordinary.{
  ConfirmLaws, start_session, confirm_ordinary, confirmation_unlocks_signup,
}
use jwt_allauth.Db.{RefreshTokenWhitelistModel, User, EmailAddress, Db}
use jwt_allauth.Delivery.{
  Codec, TokenResponse, build_token_response, login_view, answer_login, granted, logout_view,
  logged_out,
}
use jwt_allauth.Delivery.Journey.{keeps, login_then_logout}
use jwt_allauth.Examples.{cfg, jwt, jwt-JwtLaws, request, alice, row, token, db}
use jwt_allauth.Failure.{not_verified_email}
use jwt_allauth.Mfa.Gate.{
  login, allauth_authenticate, mfa_challenge, after_gate, has_totp, open_session,
}
use jwt_allauth.Session.{
  Tokens, refresh_token, session_is_active, for_user, new_session_token, save_session,
  enable_session, enable_first,
}
use jwt_allauth.Settings.{verification_is_mandatory}
use jwt_allauth.Token.{
  Payload, is_email_verified, set_user_attributes, write_attributes, write_attribute, conflicts,
  session_is_over, session_deadline,
}

-- Tokens that are written as they are.
abbrev pub codec : Codec Payload
codec = record { encode = λ p. p; decode = λ p. some p }

logged_in :
    (response : TokenResponse Payload) × (login_view cfg true jwt
        (request 1)
        codec
        61
        (some alice)
        db
      ≡ (ok (granted response), (login_view cfg true jwt (request 1) codec 61 (some alice) db).1))
unfolding login_view answer_login build_token_response login allauth_authenticate
    verification_is_mandatory is_email_verified mfa_challenge after_gate has_totp open_session
    for_user new_session_token save_session set_user_attributes write_attributes write_attribute
    conflicts attribute_map exists
logged_in = (_, refl)

login_then_logout_example :
    let s' = (login_view cfg true jwt (request 1) codec 61 (some alice) db).1 in
    (user : User) × (some alice ≡ some user)
    × (let (r, s'') = logout_view cfg codec (some user.id) (keeps logged_in.0) s' in
        (r ≡ ok logged_out) × (session_is_active 201 s'' ≡ false))
login_then_logout_example =
    login_then_logout cfg jwt jwt-JwtLaws (request 1) true 61 (some alice) codec db
      (login_view cfg true jwt (request 1) codec 61 (some alice) db).1 logged_in.0 (λ t done. refl)
      logged_in.1

abbrev pending_row : RefreshTokenWhitelistModel
pending_row = record row { enabled = false }

abbrev unconfirmed : Db
unconfirmed = record db {
  whitelist = pending_row ∷ [];
  emails = record { user = 7; email = 70; verified = false; primary = true } ∷ [];
}

abbrev confirm : Db → Db
confirm s = record s { emails = map (λ (e : EmailAddress). record e { verified = true }) s.emails }

confirm-ConfirmLaws : ConfirmLaws confirm
confirm-ConfirmLaws = record { whitelist = λ s. refl; users = λ s. refl }

confirmed :
    (r : Option Payload) × (confirm_ordinary cfg jwt (request 3) (some alice) confirm unconfirmed
      ≡ (ok r, (confirm_ordinary cfg jwt (request 3) (some alice) confirm unconfirmed).1))
unfolding confirm_ordinary start_session enable_session enable_first is_email_verified for_user
    new_session_token save_session set_user_attributes write_attributes write_attribute conflicts
    attribute_map exists
confirmed = (_, refl)

confirmation_unlocks_signup_example :
    let s' = (confirm_ordinary cfg jwt (request 3) (some alice) confirm unconfirmed).1 in
    (refresh_token cfg jwt (request 5) (some token) unconfirmed
      ≡ (err not_verified_email, unconfirmed))
    × ((t : Tokens) × ((refresh_token cfg jwt (request 5) (some token) s').0 ≡ ok t))
unfolding first exists is_email_verified session_is_over session_deadline conflicts attribute_map
    confirm_ordinary start_session enable_session enable_first for_user new_session_token
    save_session set_user_attributes write_attributes write_attribute
confirmation_unlocks_signup_example =
    confirmation_unlocks_signup cfg jwt jwt-JwtLaws (request 3) (request 5) token pending_row alice
      10 confirm unconfirmed
      (confirm_ordinary cfg jwt (request 3) (some alice) confirm unconfirmed).1 confirmed.0
      confirm-ConfirmLaws refl refl refl refl refl refl refl refl confirmed.1 refl refl refl
