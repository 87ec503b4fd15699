-- ===== src/Social.antt =====
-- Social login (jwt_allauth/social/flows.py and app_settings.py). allauth and the adapters of a project
-- are the parameter `Allauth`; Credentials is what a provider makes of a credential.
pub mod Credentials
pub mod Decisions
pub mod Endpoints
use jwt_allauth.Base.{
  ℕ, Bool, true, false, not, ◌&&◌, ◌||◌, Option, none, some, List, [], ◌∷◌, ◌++◌, map, ◌==◌,
  is_some, if◌then◌else◌, Result, ok, err, Exec, pure, raise, gets, lift, or_raise, atomic,
  raise_if, modify, ◌>>=◌, ◌>>◌, select, delete, exists,
}
use jwt_allauth.Accounts.{resolve_email_for_provider, delete_users}
use jwt_allauth.Db.{SocialAccount, User, Db}
use jwt_allauth.Failure.{
  Failure, no_active_account, not_verified_email, social_login_rejected, social_email_unverified,
  social_email_conflict, social_local_account_unverified, social_signup_closed,
  social_signup_not_allowed, social_already_connected, social_disconnect_not_allowed,
  social_flow_not_supported, social_token_invalid, social_second_factor_pending,
}
use jwt_allauth.Mfa.Gate.{second_factor_pending, update_last_login}
use jwt_allauth.Settings.{Settings, Linking, linking_flag, linking_list, verification_is_mandatory}
use jwt_allauth.Token.{is_email_verified}

pub record SocialLogin : Type 0 where
  pub provider : ℕ
  pub uid : ℕ
  pub email_addresses : List (ℕ × Bool)

-- What `SocialLogin.lookup` finds: the user of a stored connection, or one with the address alone.
pub data Match : Type 0 where
  unmatched : Match
  by_account : User → Match
  by_address : User → Match

-- allauth and the adapters: the lookup, the veto of `pre_social_login`, the two questions about a
-- sign-up, `save_user`, `connect` and `validate_disconnect`.
pub record Allauth : Type 0 where
  pub lookup : SocialLogin → Db → Match
  pub vetoes : SocialLogin → Bool
  pub is_open_for_signup : SocialLogin → Bool
  pub is_auto_signup_allowed : SocialLogin → Bool
  pub save_user : SocialLogin → Db → User × Db
  pub connect : SocialLogin → ℕ → Db → Db
  pub may_disconnect : SocialAccount → List SocialAccount → Bool

unfoldable pub email_linking_enabled : Settings → ℕ → Bool
email_linking_enabled cfg provider = elim cfg.social_email_linking [
  | linking_flag enabled ↦ enabled
  | linking_list providers ↦ exists (λ p. p == provider) providers
]

-- `lookup()`, less a match by address
abbrev pub connected : Match → Option User
connected unmatched = none
connected (by_account user) = some user
connected (by_address user) = none

-- `_prepare`: the user of the stored connection. A match by address is discarded.
unfoldable pub prepare : Allauth → SocialLogin → Exec Db Failure (Option User)
prepare a sl = do
  found ← gets (λ s. a.lookup sl s)
  raise_if (a.vetoes sl) social_login_rejected
  pure (connected found)

-- `_verified_emails`
unfoldable pub verified_emails : SocialLogin → List ℕ
verified_emails sl = map (λ e. e.0) (select (λ e. e.1) sl.email_addresses)

-- The refusal of `_resolve_addresses` after its loop.
abbrev pub refuse_blocked : Bool → List User → List User → Result Failure (Option User × List User)
refuse_blocked linking [] superseded = ok (none, superseded)
refuse_blocked linking (_ ∷ _) superseded =
    err (if not linking then social_email_conflict else social_local_account_unverified)

-- The loop of `_resolve_addresses`, with the lists that it extends.
unfoldable pub resolve_addresses :
    Settings
    → ℕ
    → Bool
    → Db
    → List User
    → List User
    → List ℕ
    → Result Failure (Option User × List User)
resolve_addresses cfg now linking s blocked superseded [] =
    refuse_blocked linking blocked superseded
resolve_addresses cfg now linking s blocked superseded (email ∷ emails) =
    let (owner, occupied, abandoned) = resolve_email_for_provider cfg now email s in
    let rest =
      resolve_addresses cfg now linking s (blocked ++ occupied) (superseded ++ abandoned) emails in
    elim owner [
      | some user ↦ if not linking then err social_email_conflict else ok (some user, [])
      | none ↦ rest
    ]

-- `_signup`
unfoldable pub signup : Allauth → SocialLogin → List User → Exec Db Failure User
signup a sl superseded = do
  raise_if (not (a.is_open_for_signup sl)) social_signup_closed
  raise_if (not (a.is_auto_signup_allowed sl)) social_signup_not_allowed
  modify (delete_users superseded)
  λ s. let (user, s') = a.save_user sl s in (ok user, s')

abbrev is_empty : List ℕ → Bool
is_empty [] = true
is_empty (_ ∷ _) = false

-- `_signup_or_link` after the addresses are resolved
unfoldable pub link_or_signup :
    Settings → Bool → Allauth → SocialLogin → Option User × List User → Exec Db Failure User
unfolding signup
link_or_signup cfg available a sl (none, superseded) = signup a sl superseded
link_or_signup cfg available a sl (some owner, superseded) = do
  pending ← gets (λ s. second_factor_pending cfg available s owner.id)
  raise_if pending (social_second_factor_pending owner)
  modify (a.connect sl owner.id)
  pure owner

-- `_signup_or_link`
unfoldable pub signup_or_link : Settings → Bool → Allauth → ℕ → SocialLogin → Exec Db Failure User
unfolding link_or_signup email_linking_enabled
signup_or_link cfg available a now sl = do
  let verified = verified_emails sl
  raise_if (is_empty verified && cfg.social_require_verified_email) social_email_unverified
  resolved ←
      λ s. (resolve_addresses cfg now (email_linking_enabled cfg sl.provider) s [] [] verified, s)
  link_or_signup cfg available a sl resolved

-- `if not sociallogin.is_existing`
unfoldable pub find_user :
    Settings → Bool → Allauth → ℕ → SocialLogin → Option User → Exec Db Failure User
unfolding signup_or_link
find_user cfg available a now sl (some user) = pure user
find_user cfg available a now sl none = signup_or_link cfg available a now sl

-- `authenticate_social_login`, a transaction: the user, and whether an address is verified.
unfoldable pub authenticate_social_login :
    Settings → Bool → Allauth → ℕ → SocialLogin → Exec Db Failure (User × Bool)
unfolding prepare find_user
authenticate_social_login cfg available a now sl = atomic (do
  existing ← prepare a sl
  user ← find_user cfg available a now sl existing
  raise_if (not user.is_active) no_active_account
  verified ← gets (λ s. is_email_verified s user.id)
  raise_if (verification_is_mandatory cfg && not verified) not_verified_email
  modify (λ s. if cfg.update_last_login then update_last_login now user.id s else s)
  pure (user, verified))

-- `connect_social_login`, for the authenticated caller
unfoldable pub connect_social_login : Allauth → ℕ → SocialLogin → Exec Db Failure (Unit {0})
unfolding prepare
connect_social_login a caller sl = do
  existing ← prepare a sl
  elim existing [
    | some user ↦ raise_if (not (user.id == caller)) social_already_connected
    | none ↦ modify (a.connect sl caller)
  ]

unfoldable pub disconnect_social_account :
    Allauth → SocialAccount → List SocialAccount → Exec Db Failure (Unit {0})
disconnect_social_account a account accounts = do
  raise_if (not (a.may_disconnect account accounts)) social_disconnect_not_allowed
  modify (λ s. record s { social = delete (λ c. c.pk == account.pk) s.social })
