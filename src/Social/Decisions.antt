-- ===== src/Social/Decisions.antt =====
-- Whom a social login signs in, and which accounts it removes.
use jwt_allauth.Base.{
  ℕ, ◌≡◌, ◌⊎◌, refl, ◌∙◌, ap, subst, inl, inr, Bool, true, false, ◌&&◌, Option, none, some, List,
  [], ◌∷◌, arith, ◌==◌, ==_refl, Option-cases, Result-cases, ok, All, All-append, exists,
}
use jwt_allauth.Accounts.{account_is_claimed, resolve_email_for_provider, delete_users}
use jwt_allauth.Accounts.Verdicts.{provider_verdict}
use jwt_allauth.Db.{User, Db}
use jwt_allauth.Mfa.Gate.{second_factor_pending, update_last_login}
use jwt_allauth.Token.{is_email_verified}
use jwt_allauth.Settings.{Settings, verification_is_mandatory}
use jwt_allauth.Social.{
  SocialLogin, Match, unmatched, by_account, by_address, Allauth, email_linking_enabled, connected,
  prepare, find_user, verified_emails, resolve_addresses, signup, link_or_signup, signup_or_link,
  authenticate_social_login,
}

abbrev pub AllUnclaimed : Settings → ℕ → Db → List User → Type 0
AllUnclaimed cfg now s = All (λ u. account_is_claimed cfg now s true (some u) ≡ false)

module _ (cfg : Settings) (now : ℕ) (linking : Bool) (s : Db) where
  resolved-owner :
      (emails : List ℕ) (blocked superseded : List User) (user : User) (rest : List User)
      → resolve_addresses cfg now linking s blocked superseded emails ≡ ok (some user, rest)
      → (linking ≡ true)
        × (email : ℕ) × (exists (λ e. e == email) emails ≡ true)
        × ((resolve_email_for_provider cfg now email s).0 ≡ some user)
  unfolding resolve_addresses exists
  resolved-owner [] [] superseded user rest h = absurd (cc)
  resolved-owner [] (b ∷ bs) superseded user rest h = absurd (cc)
  resolved-owner (email ∷ emails) blocked superseded user rest h =
      elim (Option-cases (resolve_email_for_provider cfg now email s).0) [
        | inr (owner, found) ↦ (ground arith, email, ground (arith, ==_refl email), ground arith)
        | inl nobody ↦
            let (on, e, there, holds) =
              resolved-owner emails _ _ user rest (rw (resolve_addresses, nobody) at h) in
            (on, e, ground (arith, there), holds)
      ]

  resolved-unclaimed :
      (emails : List ℕ) (blocked superseded : List User) (rest : List User)
      → AllUnclaimed cfg now s superseded
      → resolve_addresses cfg now linking s blocked superseded emails ≡ ok (none, rest)
      → AllUnclaimed cfg now s rest
  unfolding resolve_addresses
  resolved-unclaimed [] [] superseded rest all h = subst (AllUnclaimed cfg now s) (cc) all
  resolved-unclaimed [] (b ∷ bs) superseded rest all h = absurd (cc)
  resolved-unclaimed (email ∷ emails) blocked superseded rest all h =
      elim (Option-cases (resolve_email_for_provider cfg now email s).0) [
        | inr (owner, found) ↦ absurd (ground arith)
        | inl nobody ↦
            let (_, abandoned, _) = provider_verdict cfg now s email in
            resolved-unclaimed emails _ _ rest (All-append _ superseded _ all abandoned)
              (rw (resolve_addresses, nobody) at h)
      ]

-- The two ways in for a login that matched no connection.
LinkedOrNew : Settings → Bool → Allauth → ℕ → SocialLogin → Db → User → Type 0
LinkedOrNew cfg available a now sl s user =
    ((email_linking_enabled cfg sl.provider ≡ true)
      × (second_factor_pending cfg available s user.id ≡ false)
      × (email : ℕ) × (exists (λ e. e == email) (verified_emails sl) ≡ true)
      × ((resolve_email_for_provider cfg now email s).0 ≡ some user))
    ⊎ ((superseded : List User) × AllUnclaimed cfg now s superseded
        × ((a.save_user sl (delete_users superseded s)).0 ≡ user))

link_or_signup-justified :
    (cfg : Settings) (available : Bool) (a : Allauth) (now : ℕ) (sl : SocialLogin) (s : Db)
    (user : User) (resolved : Option User × List User)
    → resolve_addresses cfg now (email_linking_enabled cfg sl.provider) s [] [] (verified_emails sl)
      ≡ ok resolved
    → (link_or_signup cfg available a sl resolved s).0 ≡ ok user
    → LinkedOrNew cfg available a now sl s user
unfolding link_or_signup signup LinkedOrNew
link_or_signup-justified cfg available a now sl s user (none, superseded) r h =
    inr (superseded, resolved-unclaimed cfg now _ s _ [] [] superseded tt r, ground arith)
link_or_signup-justified cfg available a now sl s user (some owner, superseded) r h =
    let (on, email, there, holds) = resolved-owner cfg now _ s _ [] [] owner superseded r in
    inl (on, ground arith, email, there, ground arith)

signup_or_link-justified :
    (cfg : Settings) (available : Bool) (a : Allauth) (now : ℕ) (sl : SocialLogin) (s : Db)
    (user : User)
    → (signup_or_link cfg available a now sl s).0 ≡ ok user
    → LinkedOrNew cfg available a now sl s user
unfolding signup_or_link
signup_or_link-justified cfg available a now sl s user h =
    elim (Result-cases (
      resolve_addresses cfg now (email_linking_enabled cfg sl.provider) s [] []
        (verified_emails sl))) [
          | inr (e, failed) ↦ absurd (ground arith)
          | inl (resolved, r) ↦
              link_or_signup-justified cfg available a now sl s user resolved r (ground arith)
        ]

-- The user that a login without a veto stands for.
existing_or_new :
    (cfg : Settings) (available : Bool) (a : Allauth) (now : ℕ) (sl : SocialLogin) (s : Db)
    (user : User)
    → (m : Match) → a.lookup sl s ≡ m
    → (find_user cfg available a now sl (connected m) s).0 ≡ ok user
    → (a.lookup sl s ≡ by_account user) ⊎ LinkedOrNew cfg available a now sl s user
unfolding find_user
existing_or_new cfg available a now sl s user unmatched found h =
    inr (signup_or_link-justified cfg available a now sl s user h)
existing_or_new cfg available a now sl s user (by_address u) found h =
    inr (signup_or_link-justified cfg available a now sl s user h)
existing_or_new cfg available a now sl s user (by_account u) found h = inl (found ∙ cc)

-- A social login that succeeds signs in an active user, and says whether this user has a verified
-- address in the database afterwards, which is so where verification is mandatory. Either the provider's account is connected to that user; or linking is on, the provider
-- vouched for an address that this user owns, and no second factor is pending; or the user was made
-- by the sign-up, after the removal of accounts of which none is claimed.
pub social_login_justified :
    (cfg : Settings) (available : Bool) (a : Allauth) (now : ℕ) (sl : SocialLogin) (s : Db)
    (user : User) (verified : Bool)
    → (authenticate_social_login cfg available a now sl s).0 ≡ ok (user, verified)
    → (user.is_active ≡ true)
      × (let s' = (authenticate_social_login cfg available a now sl s).1 in
          (verified ≡ exists (λ e. e.user == user.id && e.verified) s'.emails)
          × ((verification_is_mandatory cfg ≡ false)
              ⊎ (exists (λ e. e.user == user.id && e.verified) s'.emails ≡ true)))
      × ((a.lookup sl s ≡ by_account user)
          ⊎ (((email_linking_enabled cfg sl.provider ≡ true)
                × (second_factor_pending cfg available s user.id ≡ false)
                × (email : ℕ) × (exists (λ e. e == email) (verified_emails sl) ≡ true)
                × ((resolve_email_for_provider cfg now email s).0 ≡ some user))
              ⊎ ((superseded : List User) × AllUnclaimed cfg now s superseded
                  × ((a.save_user sl (delete_users superseded s)).0 ≡ user))))
unfolding authenticate_social_login prepare LinkedOrNew is_email_verified update_last_login
social_login_justified cfg available a now sl s user verified h =
    elim (Result-cases (find_user cfg available a now sl (connected (a.lookup sl s)) s).0) [
      | inr (e, failed) ↦ absurd (ground arith)
      | inl (u, found) ↦
          let same : u ≡ user = ground arith in
          (
            ground arith,
            (ground arith, ground arith),
            existing_or_new cfg available a now sl s user (a.lookup sl s) refl (found ∙ ap ok same),
          )
    ]
