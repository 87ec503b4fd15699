-- ===== src/Examples/Invitations.antt =====
-- Alice, who has no password, is sent an invitation and follows it.
use jwt_allauth.Base.{
  ◌≡◌, refl, true, false, some, none, arith, inr, if◌then◌else◌, exists, first, ◌∷◌, [],
}
use jwt_allauth.Confirmation.{set_password_form, claim_invitation, confirm_key}
use jwt_allauth.Confirmation.Mail.{
  is_admin_invite, send_confirmation_mail, invitation_mail_is_claimed,
}
use jwt_allauth.Db.{User, Db, pass_set_access}
use jwt_allauth.Examples.{cfg, jwt, jwt-JwtLaws, request, alice, db}
use jwt_allauth.Password.{capability_token}
use jwt_allauth.Password.Accepted.{LetsIn}
use jwt_allauth.Settings.{Settings, invitations_enabled}

abbrev inviting : Settings
inviting = record cfg { invitations = true }

abbrev guest : User
guest = record alice { usable_password = false }

abbrev hosting : Db
hosting = record db { users = guest ∷ [] }

invitation_mail_is_claimed_example :
    let (mail, s') = send_confirmation_mail inviting 0 44 45 70 guest true hosting in
    let cookie = capability_token inviting jwt (request 1) guest pass_set_access in
    ((claim_invitation inviting jwt (request 1) 45 44 (λ s. some s) s').0
      ≡ (if is_admin_invite mail.template then some (set_password_form cookie) else none))
    × LetsIn inviting guest pass_set_access cookie
unfolding invitations_enabled exists first confirm_key
invitation_mail_is_claimed_example =
    invitation_mail_is_claimed inviting jwt jwt-JwtLaws 0 (request 1) 44 45 70 (λ s. some s) guest
      true hosting refl refl (omega arith) refl refl (inr refl) refl
