-- ===== src/Social/Endpoints/Verified.antt =====
-- A session through a provider comes from a credential that this provider has verified.
use jwt_allauth.Base.{
  ℕ, ◌≡◌, refl, inl, inr, Bool, true, ◌||◌, if◌then◌else◌, Option, none, some, arith, is_some,
  Option-cases, Result-cases, ok,
}
use jwt_allauth.Db.{User, Db}
use jwt_allauth.Delivery.{Codec, TokenResponse}
use jwt_allauth.Settings.{Settings}
use jwt_allauth.Social.{SocialLogin, Allauth, authenticate_social_login}
use jwt_allauth.Social.Credentials.{
  TokenCredential, CodeCredential, Credential, by_token, by_code, client_of, Provider, Lookup,
  get_provider, names_client, sociallogin_from_token, sociallogin_from_code, callback_url_allowed,
  build_sociallogin, present,
}
use jwt_allauth.Social.Endpoints.{social_granted, social_login}
use jwt_allauth.Social.Endpoints.Justified.{Opens, social_login_needs_second_factor}
use jwt_allauth.Token.{Jwt, JwtLaws, Request}

-- What a provider has verified: a token, where it has apps for the client that was named, or a code for
-- an address that is allowed.
pub data Verified (cfg : Settings) (p : Provider) (sl : SocialLogin) : Credential → Type 0 where
  token_verified :
      (c : TokenCredential)
      → p.supports_token_authentication ≡ true
      → (is_some c.id_token || is_some c.access_token) ≡ true
      → (p.uses_apps ≡ true
          → (client : ℕ) × (c.client_id ≡ some client) × (p.client_id ≡ some client))
      → p.verify_token c.id_token c.access_token (if p.uses_apps then c.client_id else none)
        ≡ some sl
      → Verified cfg p sl (by_token c)
  code_exchanged :
      (c : CodeCredential) (exchange : ℕ → ℕ → Option ℕ → Option SocialLogin)
      → callback_url_allowed cfg c.callback_url ≡ true
      → p.oauth2 ≡ some exchange
      → exchange c.callback_url c.code c.code_verifier ≡ some sl
      → Verified cfg p sl (by_code c)

names_client-named :
    (named own : Option ℕ)
    → names_client named own ≡ true
    → (client : ℕ) × (named ≡ some client) × (own ≡ some client)
names_client-named none own h = absurd (cc)
names_client-named (some client) none h = absurd (cc)
names_client-named (some client) (some own) h = (client, refl, ground arith)

get_provider-found :
    (lookup : Lookup) (provider_id : ℕ) (client_id : Option ℕ) (p : Provider)
    → get_provider lookup provider_id client_id ≡ ok p
    → lookup provider_id client_id ≡ some p
unfolding get_provider
get_provider-found lookup provider_id client_id p h =
    elim (Option-cases (lookup provider_id client_id)) [
      | inr (found, there) ↦ ground arith
      | inl missing ↦ absurd (ground arith)
    ]

token-Verified :
    (cfg : Settings) (p : Provider) (c : TokenCredential) (sl : SocialLogin)
    → sociallogin_from_token p c ≡ ok sl
    → Verified cfg p sl (by_token c)
unfolding sociallogin_from_token
token-Verified cfg p c sl h =
    token_verified c (ground arith) (ground arith)
      (λ apps. names_client-named c.client_id p.client_id (ground arith)) (ground arith)

code-Verified :
    (cfg : Settings) (p : Provider) (c : CodeCredential) (sl : SocialLogin)
    → sociallogin_from_code cfg p c ≡ ok sl
    → Verified cfg p sl (by_code c)
unfolding sociallogin_from_code
code-Verified cfg p c sl h = elim (Option-cases p.oauth2) [
  | inl none_there ↦ absurd (ground arith)
  | inr (exchange, speaks) ↦ code_exchanged c exchange (ground arith) speaks (ground arith)
]

build-Verified :
    (cfg : Settings) (p : Provider) (c : Credential) (sl : SocialLogin)
    → build_sociallogin cfg p c ≡ ok sl
    → Verified cfg p sl c
unfolding build_sociallogin
build-Verified cfg p (by_token c) sl h = token-Verified cfg p c sl h
build-Verified cfg p (by_code c) sl h = code-Verified cfg p c sl h

present-Verified :
    (cfg : Settings) (lookup : Lookup) (provider_id : ℕ) (c : Credential) (sl : SocialLogin)
    → present cfg lookup provider_id c ≡ ok sl
    → (p : Provider) × (lookup provider_id (client_of c) ≡ some p) × Verified cfg p sl c
unfolding present
present-Verified cfg lookup provider_id c sl h =
    elim (Result-cases (get_provider lookup provider_id (client_of c))) [
      | inr (e, failed) ↦ absurd (ground arith)
      | inl (p, found) ↦ (
        p,
        get_provider-found lookup provider_id (client_of c) p found,
        build-Verified cfg p c sl (ground arith),
      )
    ]

module _ {W : Type 0} (cfg : Settings) (available : Bool) (j : Jwt) (laws : JwtLaws j)
    (req : Request) (c : Codec W) (fresh : ℕ) where
  -- A provider stands in for the password and for nothing else. Where a social login answers with
  -- tokens, the provider that is configured under the id and the client that were named has verified
  -- the credential: a token, for an app of this very client where the provider has apps, or a code, for
  -- an address that is allowed. `authenticate_social_login` has returned the user, no second factor is
  -- pending for this user, and the tokens are of the user and of a new session.
  pub provider_session_earned :
      (a : Allauth) (lookup : Lookup) (provider_id : ℕ) (credential : Credential) (s s' : Db)
      (response : TokenResponse W)
      → social_login cfg available j req c fresh a (present cfg lookup provider_id credential) s
        ≡ (ok (social_granted response), s')
      → (sl : SocialLogin) × (p : Provider) × (user : User) × (verified : Bool) × (s1 : Db)
        × (lookup provider_id (client_of credential) ≡ some p)
        × Verified cfg p sl credential
        × (authenticate_social_login cfg available a req.now sl s ≡ (ok (user, verified), s1))
        × Opens cfg available j laws req c fresh user s1 response
  provider_session_earned a lookup provider_id credential s s' response h =
      let (sl, user, verified, s1, accepted, authenticated, opens) =
        social_login_needs_second_factor cfg available j laws req c fresh a
          (present cfg lookup provider_id credential) s s' response h in
      let (p, found, by_provider) =
        present-Verified cfg lookup provider_id credential sl accepted in
      (sl, p, user, verified, s1, found, by_provider, authenticated, opens)
