-- ===== src/Examples/Invitees.antt =====
-- An account that is made by an invitation.
use jwt_allauth.Base.{ℕ, true, false, some, ◌∷◌}
use jwt_allauth.Db.{User, EmailAddress, stored}
use jwt_allauth.Examples.{cfg, alice}
use jwt_allauth.Registration.{Adapter}
use jwt_allauth.Registration.Invited.{Invitation}
use jwt_allauth.Settings.{Settings}

abbrev the_row : ℕ → ℕ → EmailAddress
the_row user email = record { user = user; email = email; verified = false; primary = true }

-- allauth, where the new account gets the id 9 and its address.
abbrev lawful : Adapter
lawful = record {
  save_user = λ signup email s.
      let user = signup (record alice { id = 9 }) in
      (user, record s { users = user ∷ s.users; emails = the_row user.id email ∷ s.emails });
  confirm_email = λ user s. s;
  complete_signup = λ user s. s;
}

abbrev inviting : Settings
inviting = record cfg { invitations = true }

abbrev to_bob : Invitation
to_bob = record { email = 71; role = some 300; key = 80; digest = 81 }

abbrev bob : User
bob = record alice { id = 9; role = stored 300; usable_password = false }
