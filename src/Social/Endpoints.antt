-- ===== src/Social/Endpoints.antt =====
-- The social endpoints (jwt_allauth/social/views.py) and the two decisions of the adapter that the
-- library installs (jwt_allauth/social/adapter.py). A credential arrives as what `present` made of it.
pub mod Justified
pub mod Verified
use jwt_allauth.Base.{
  ℕ, Bool, true, false, not, ◌&&◌, ◌||◌, Option, none, some, List, [], ◌∷◌, length, ltb, ◌==◌,
  if◌then◌else◌, Result, ok, err, Exec, pure, raise, lift, or_raise, ◌>>=◌, ◌>>◌, select, first,
}
use jwt_allauth.Db.{SocialAccount, User, Db}
use jwt_allauth.Delivery.{Codec, TokenResponse, build_token_response}
use jwt_allauth.Failure.{Failure, social_second_factor_pending}
use jwt_allauth.Mfa.Deactivate.{load_user}
use jwt_allauth.Mfa.Gate.{Challenge, mfa_challenge}
use jwt_allauth.Session.{Tokens, for_user}
use jwt_allauth.Settings.{Settings, self_registration_enabled}
use jwt_allauth.Social.{
  SocialLogin, Allauth, authenticate_social_login, connect_social_login, disconnect_social_account,
}
use jwt_allauth.Token.{Payload, Jwt, Request, access_token}

-- `is_open_for_signup`, where `upstream` is what allauth's adapter answers
unfoldable pub is_open_for_signup : Settings → Bool → Bool
is_open_for_signup cfg upstream = if not (self_registration_enabled cfg) then false else upstream

-- `validate_disconnect`: whether it lets the connection of this user go
unfoldable pub validate_disconnect : Bool → List SocialAccount → User → Bool
validate_disconnect upstream accounts user =
    if not upstream then false else if ltb 1 (length accounts) then true else user.usable_password

pub data SocialResponse (W : Type 0) : Type 0 where
  social_pending : Challenge → SocialResponse W
  social_granted : TokenResponse W → SocialResponse W

module _ {W : Type 0} (cfg : Settings) (available : Bool) (j : Jwt) (req : Request) (c : Codec W)
    (fresh : ℕ) where
  -- The challenge of an account that owes a second factor, or the exception again.
  unfoldable pub owed : User → Exec Db Failure (SocialResponse W)
  owed user = do
    asked ← mfa_challenge cfg available req.now fresh user.id
    elim asked [
      | none ↦ raise (social_second_factor_pending user)
      | some challenge ↦ pure (social_pending challenge)
    ]

  -- The gate, and the session behind it.
  unfoldable pub social_session : Bool → User → Exec Db Failure (SocialResponse W)
  social_session verified user = do
    asked ← mfa_challenge cfg available req.now fresh user.id
    elim asked [
      | some challenge ↦ pure (social_pending challenge)
      | none ↦ do
        refresh ← for_user cfg j req true (some verified) user
        pure (
            social_granted (
              build_token_response cfg c
                (record { access = access_token cfg j req.now refresh; refresh = refresh })))
    ]

  -- `BaseSocialLoginView.post`
  unfoldable pub social_login :
      Allauth → Result Failure SocialLogin → Exec Db Failure (SocialResponse W)
  unfolding owed social_session
  social_login a credential s = elim credential [
    | err e ↦ (err e, s)
    | ok sociallogin ↦
        let (r, s') = authenticate_social_login cfg available a req.now sociallogin s in
        elim r [
          | ok (user, verified) ↦ social_session verified user s'
          | err e ↦ elim e [
            | social_second_factor_pending user ↦ owed user s'
            | other ↦ (err other, s')
          ]
        ]
  ]

-- `BaseSocialConnectView.post`
unfoldable pub social_connect :
    Allauth → ℕ → Result Failure SocialLogin → Exec Db Failure (Unit {0})
unfolding load_user
social_connect a caller credential = do
  user ← load_user caller
  sociallogin ← lift credential
  connect_social_login a user.id sociallogin

-- `SocialAccountListView.get_queryset`
abbrev pub accounts_of : ℕ → Db → List SocialAccount
accounts_of caller s = select (λ account. account.user == caller) s.social

unfoldable pub disconnect_found :
    Allauth → SocialAccount → List SocialAccount → Exec Db Failure Bool
disconnect_found a account accounts = do disconnect_social_account a account accounts; pure true

-- `SocialAccountDisconnectView.delete`: whether there is such a connection of the caller
unfoldable pub social_disconnect : Allauth → ℕ → ℕ → Exec Db Failure Bool
unfolding disconnect_found
social_disconnect a caller pk s =
    elim (first (λ (account : SocialAccount). account.pk == pk) (accounts_of caller s)) [
      | none ↦ (ok false, s)
      | some account ↦ disconnect_found a account (accounts_of caller s) s
    ]
