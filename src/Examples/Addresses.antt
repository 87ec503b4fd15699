-- ===== src/Examples/Addresses.antt =====
-- An address that nobody confirmed, and a social login for it.
use jwt_allauth.Accounts.{
  account_is_claimed, mailbox_control_proven, holders, resolve_email, resolve_email_for_provider,
  delete_users, resolve_provider,
}
use jwt_allauth.Accounts.Verdicts.{verdicts_justified, Occupied}
use jwt_allauth.Base.{
  ℕ, ◌≡◌, ◌↔◌, ◌⊎◌, refl, true, false, ◌&&◌, ◌||◌, none, some, List, [], ◌∷◌, ◌==◌, All, exists,
  first, select,
}
use jwt_allauth.Db.{User, Db}
use jwt_allauth.Examples.{cfg, alice, db}
use jwt_allauth.Mfa.Gate.{second_factor_pending, has_totp}
use jwt_allauth.Settings.{verification_is_mandatory}
use jwt_allauth.Social.{
  SocialLogin, unmatched, by_account, Allauth, email_linking_enabled, verified_emails,
  authenticate_social_login, find_user, signup_or_link, link_or_signup, resolve_addresses, prepare,
}
use jwt_allauth.Social.Decisions.{AllUnclaimed, social_login_justified}
use jwt_allauth.Token.{is_email_verified}

-- A sign-up that was never confirmed and never used.
abbrev bob : User
bob = record alice { id = 8; is_staff = false }

abbrev pending : Db
pending = record db {
  users = alice ∷ bob ∷ [];
  emails = record { user = 8; email = 80; verified = false; primary = true } ∷ db.emails;
}

verdicts_justified_example :
    ((resolve_email cfg 0 80 true pending ≡ (none, bob ∷ []))
      ↔ (resolve_email_for_provider cfg 0 80 pending ≡ (none, [], bob ∷ [])))
    × (let (owner, occupied, abandoned) = resolve_email_for_provider cfg 0 80 pending in
        All (Occupied cfg 0 pending) occupied
        × All (λ u. account_is_claimed cfg 0 pending true (some u) ≡ false) abandoned
        × ((owner ≡ none)
            ⊎ ((user : User) × (owner ≡ some user)
                × (exists
                      (λ h.
                        h.1.id == user.id
                        && (h.0.verified || mailbox_control_proven cfg 0 pending true (some user)))
                      (holders 80 pending)
                    ≡ true))))
verdicts_justified_example = verdicts_justified cfg 0 pending 80 (bob ∷ [])

-- An allauth that knows no connection, creates nobody and connects nothing.
abbrev allauth : Allauth
allauth = record {
  lookup = λ sl s. unmatched;
  vetoes = λ sl. false;
  is_open_for_signup = λ sl. true;
  is_auto_signup_allowed = λ sl. true;
  save_user = λ sl s. (bob, s);
  connect = λ sl user s. s;
  may_disconnect = λ a connections. true;
}

abbrev sociallogin : SocialLogin
sociallogin = record { provider = 1; uid = 5; email_addresses = (70, true) ∷ [] }

social_login_justified_example :
    (alice.is_active ≡ true)
    × (let s' = (authenticate_social_login cfg true allauth 0 sociallogin pending).1 in
        (true ≡ exists (λ e. e.user == 7 && e.verified) s'.emails)
        × ((verification_is_mandatory cfg ≡ false)
            ⊎ (exists (λ e. e.user == 7 && e.verified) s'.emails ≡ true)))
    × ((allauth.lookup sociallogin pending ≡ by_account alice)
        ⊎ (((email_linking_enabled cfg 1 ≡ true)
              × (second_factor_pending cfg true pending 7 ≡ false)
              × (email : ℕ) × (exists (λ e. e == email) (verified_emails sociallogin) ≡ true)
              × ((resolve_email_for_provider cfg 0 email pending).0 ≡ some alice))
            ⊎ ((superseded : List User) × AllUnclaimed cfg 0 pending superseded
                × ((allauth.save_user sociallogin (delete_users superseded pending)).0 ≡ alice))))
unfolding authenticate_social_login prepare find_user signup_or_link link_or_signup
    resolve_addresses resolve_email_for_provider resolve_provider holders verified_emails
    second_factor_pending has_totp is_email_verified verification_is_mandatory email_linking_enabled
    mailbox_control_proven exists first select
social_login_justified_example =
    social_login_justified cfg true allauth 0 sociallogin pending alice true refl
