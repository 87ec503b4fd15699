-- ===== src/Examples/Providers.antt =====
-- Alice, who has a password, with one connection to a provider.
use jwt_allauth.Base.{
  ◌≡◌, ◌⊎◌, refl, Bool, true, false, none, some, [], ◌∷◌, arith, ok, err, exists, count, is_some,
  if◌then◌else◌,
}
use jwt_allauth.Claim.{attribute_map}
use jwt_allauth.Db.{User, Db}
use jwt_allauth.Delivery.{TokenResponse, build_token_response}
use jwt_allauth.Examples.{cfg, jwt, jwt-JwtLaws, request, alice, db}
use jwt_allauth.Examples.Journeys.{codec}
use jwt_allauth.Failure.{social_provider_not_configured}
use jwt_allauth.Mfa.Gate.{mfa_challenge, has_totp, update_last_login}
use jwt_allauth.Session.{for_user, new_session_token, save_session}
use jwt_allauth.Settings.{verification_is_mandatory}
use jwt_allauth.Social.{
  SocialLogin, Allauth, by_account, authenticate_social_login, prepare, find_user,
}
use jwt_allauth.Social.Endpoints.{
  social_granted, social_login, social_session, social_disconnect, validate_disconnect,
}
use jwt_allauth.Social.Endpoints.Justified.{Opens, connection_of, disconnect_keeps_a_way_in}
use jwt_allauth.Social.Credentials.{
  Credential, by_token, client_of, Provider, Lookup, present, get_provider, sociallogin_from_token,
  read_credential, build_sociallogin,
}
use jwt_allauth.Social.Endpoints.Verified.{Verified, provider_session_earned}
use jwt_allauth.Token.{
  Payload, is_email_verified, set_user_attributes, write_attributes, write_attribute, conflicts,
}

abbrev allauth : Allauth
allauth = record {
  lookup = λ sl s. by_account alice;
  vetoes = λ sl. false;
  is_open_for_signup = λ sl. true;
  is_auto_signup_allowed = λ sl. true;
  save_user = λ sl s. (alice, s);
  connect = λ sl user s. s;
  may_disconnect = λ account accounts. validate_disconnect true accounts alice;
}

abbrev sociallogin : SocialLogin
sociallogin = record { provider = 1; uid = 5; email_addresses = (70, true) ∷ [] }

abbrev provider : Provider
provider = record {
  supports_token_authentication = true;
  uses_apps = true;
  client_id = some 3;
  verify_token =
      λ id_token access_token client_id. if is_some client_id then some sociallogin else none;
  oauth2 = none;
}

abbrev lookup : Lookup
lookup provider_id client_id = some provider

abbrev credential : Credential
credential = by_token (record { id_token = some 1; access_token = none; client_id = some 3 })

abbrev logged_in_db : Db
logged_in_db =
    (social_login cfg true jwt (request 1) codec 61 allauth (present cfg lookup 1 credential) db).1

logged_in :
    (response : TokenResponse Payload) × (social_login cfg true jwt
        (request 1)
        codec
        61
        allauth
        (present cfg lookup 1 credential)
        db
      ≡ (ok (social_granted response), logged_in_db))
unfolding social_login social_session build_token_response authenticate_social_login prepare
    find_user verification_is_mandatory is_email_verified mfa_challenge has_totp for_user
    new_session_token save_session set_user_attributes write_attributes write_attribute conflicts
    attribute_map exists update_last_login present get_provider sociallogin_from_token
    read_credential build_sociallogin
logged_in = (_, refl)

provider_session_earned_example :
    (sl : SocialLogin) × (p : Provider) × (user : User) × (verified : Bool) × (s1 : Db) × (lookup 1
        (client_of credential)
      ≡ some p)
    × Verified cfg p sl credential
    × (authenticate_social_login cfg true allauth (request 1).now sl db ≡ (ok (user, verified), s1))
    × Opens cfg true jwt jwt-JwtLaws (request 1) codec 61 user s1 logged_in.0
provider_session_earned_example =
    provider_session_earned cfg true jwt jwt-JwtLaws (request 1) codec 61 allauth lookup 1
      credential db logged_in_db logged_in.0 logged_in.1

-- Where a lookup without a client finds several apps it fails, and a client that no app has is
-- answered as a provider that is not configured.
several_apps :
    present cfg (λ provider_id client_id. none) 1 credential ≡ err social_provider_not_configured
unfolding present get_provider read_credential
several_apps = refl

abbrev connected_db : Db
connected_db = record db { social = record { pk = 4; provider = 1; uid = 5; user = 7 } ∷ [] }

disconnect_keeps_a_way_in_example :
    let s' = (social_disconnect allauth 7 4 connected_db).1 in
    (true ≡ true) ⊎ (exists (connection_of 7) s'.social ≡ true)
unfolding exists count
disconnect_keeps_a_way_in_example =
    disconnect_keeps_a_way_in allauth (λ account accounts. true) alice (λ account accounts. refl) 4
      connected_db (λ n. ground arith) refl
