-- ===== src/Registration/Reserved.antt =====
-- An invitation holds its address against the public sign-up while its link is good.
use jwt_allauth.Accounts.{account_is_claimed}
use jwt_allauth.Base.{ℕ, Bool, some}
use jwt_allauth.Db.{User, EmailAddress, Db}
use jwt_allauth.Registration.{Adapter}
use jwt_allauth.Registration.Invited.{Invitation, custom_signup, AdapterLaws}
use jwt_allauth.Settings.{Settings}

-- A lookup with a claimed holder has an owner.
module _ (cfg : Settings) (now : ℕ) (s : Db) (reserve : Bool) where
  abbrev claimed_holder : EmailAddress × User → Bool
  claimed_holder h = account_is_claimed cfg now s reserve (some h.1)

-- After an invitation the account is claimed by it, as long as the link is good.
module _ (cfg : Settings) (a : Adapter) (laws : AdapterLaws a) (now now' : ℕ) (accepts_role : Bool)
    (i : Invitation) (s : Db) where
  abbrev saved_account : User × Db
  saved_account = a.save_user (custom_signup accepts_role i.role) i.email s
