-- ===== src/Social/Credentials.antt =====
-- What a social endpoint makes of a credential (`get_provider`, `sociallogin_from_token` and
-- `sociallogin_from_code` of jwt_allauth/social/flows.py, the credentials of
-- jwt_allauth/social/serializers.py and `read_credential` of jwt_allauth/social/views.py). The providers
-- are allauth's, and what a provider answers is a field of it.
use jwt_allauth.Base.{
  ℕ, Bool, true, false, not, ◌&&◌, ◌||◌, Option, none, some, ◌==◌, is_some, if◌then◌else◌, Result,
  ok, err, exists,
}
use jwt_allauth.Failure.{
  Failure, validation_error, social_provider_not_configured, social_flow_not_supported,
  social_token_invalid,
}
use jwt_allauth.Settings.{Settings}
use jwt_allauth.Social.{SocialLogin}

pub record TokenCredential : Type 0 where
  pub id_token : Option ℕ
  pub access_token : Option ℕ
  pub client_id : Option ℕ

pub record CodeCredential : Type 0 where
  pub code : ℕ
  pub callback_url : ℕ
  pub code_verifier : Option ℕ
  pub client_id : Option ℕ

pub data Credential : Type 0 where
  by_token : TokenCredential → Credential
  by_code : CodeCredential → Credential

abbrev pub client_of : Credential → Option ℕ
client_of (by_token c) = c.client_id
client_of (by_code c) = c.client_id

-- A provider: what it supports, the client of its app, its verdict on an id token, an access
-- token and the client that the code hands on, and the OAuth2 adapter if it has one, as what the exchange of a code gives for an address.
pub record Provider : Type 0 where
  pub supports_token_authentication : Bool
  pub uses_apps : Bool
  pub client_id : Option ℕ
  pub verify_token : Option ℕ → Option ℕ → Option ℕ → Option SocialLogin
  pub oauth2 : Option (ℕ → ℕ → Option ℕ → Option SocialLogin)

-- `get_provider` of allauth's adapter, by the id and by the client if one is named: none is any of the
-- errors that the code catches.
abbrev pub Lookup : Type 0
Lookup = ℕ → Option ℕ → Option Provider

unfoldable pub get_provider : Lookup → ℕ → Option ℕ → Result Failure Provider
get_provider lookup provider_id client_id = elim (lookup provider_id client_id) [
  | some provider ↦ ok provider
  | none ↦ elim client_id [
    | none ↦ err social_provider_not_configured
    | some _ ↦ elim (lookup provider_id none) [
      | none ↦ err social_provider_not_configured
      | some _ ↦ err social_token_invalid
    ]
  ]
]

abbrev pub names_client : Option ℕ → Option ℕ → Bool
names_client (some client_id) (some own) = client_id == own
names_client _ _ = false

unfoldable pub sociallogin_from_token : Provider → TokenCredential → Result Failure SocialLogin
sociallogin_from_token provider body =
    if not provider.supports_token_authentication
    then err social_flow_not_supported
    else if not (is_some body.id_token || is_some body.access_token)
    then err social_token_invalid
    else if provider.uses_apps && not (names_client body.client_id provider.client_id)
    then err social_token_invalid
    else elim (provider.verify_token body.id_token body.access_token
        (if provider.uses_apps then body.client_id else none)) [
          | none ↦ err social_token_invalid
          | some sociallogin ↦ ok sociallogin
        ]

unfoldable pub callback_url_allowed : Settings → ℕ → Bool
callback_url_allowed cfg url = elim cfg.social_callback_urls [
  | none ↦ true
  | some allowed ↦ exists (λ u. u == url) allowed
]

unfoldable pub sociallogin_from_code :
    Settings → Provider → CodeCredential → Result Failure SocialLogin
unfolding callback_url_allowed
sociallogin_from_code cfg provider body =
    if not (callback_url_allowed cfg body.callback_url)
    then err social_flow_not_supported
    else elim provider.oauth2 [
      | none ↦ err social_flow_not_supported
      | some exchange ↦ elim (exchange body.callback_url body.code body.code_verifier) [
        | none ↦ err social_token_invalid
        | some sociallogin ↦ ok sociallogin
      ]
    ]

-- `read_credential`: a token has to come along.
unfoldable pub read_credential : Credential → Bool
read_credential (by_token c) = is_some c.id_token || is_some c.access_token
read_credential (by_code c) = true

unfoldable pub build_sociallogin : Settings → Provider → Credential → Result Failure SocialLogin
unfolding sociallogin_from_token sociallogin_from_code
build_sociallogin cfg provider (by_token c) = sociallogin_from_token provider c
build_sociallogin cfg provider (by_code c) = sociallogin_from_code cfg provider c

-- How both endpoints start.
unfoldable pub present : Settings → Lookup → ℕ → Credential → Result Failure SocialLogin
unfolding get_provider read_credential build_sociallogin
present cfg lookup provider_id credential =
    if not (read_credential credential)
    then err validation_error
    else elim (get_provider lookup provider_id (client_of credential)) [
      | err e ↦ err e
      | ok provider ↦ build_sociallogin cfg provider credential
    ]
