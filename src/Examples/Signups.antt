-- ===== src/Examples/Signups.antt =====
-- Sign-ups for a taken and for a free address.
use jwt_allauth.Confirmation.{
  claim_invitation, serve_confirmation, serves_invitation, confirm_key, is_live_confirmation,
}
use jwt_allauth.Confirmation.Invitation.{invitation_justified}
use jwt_allauth.Generic.{is_of, new_token, create_token}
use jwt_allauth.Token.{Payload}
use jwt_allauth.Accounts.{account_is_claimed, mailbox_control_proven}
use jwt_allauth.Base.{ℕ, ◌≡◌, ◌⊎◌, refl, true, false, some, [], ◌∷◌, first, select, exists, ok, err}
use jwt_allauth.Db.{GenericTokenModel, User, Db, invitation, pass_set_access, same_purpose, second}
use jwt_allauth.Examples.{cfg, jwt, jwt-JwtLaws, request, alice, db}
use jwt_allauth.Registration.{Adapter, open_endpoint, claim_email, register}
use jwt_allauth.Registration.Enumeration.{signup_reveals_nothing}
use jwt_allauth.Registration.Spares.{registration_spares_claimed}
use jwt_allauth.Failure.{validation_error}
use jwt_allauth.Registration.Names.{
  validate_name, matches, rest_matches, is_allowed, collapse, split, join_rest, capitalize, upper,
  lower,
}
use jwt_allauth.Registration.Names.Settled.{name_settles}
use jwt_allauth.Scaffold.Text.{codes}
use jwt_allauth.Session.{has_id}
use jwt_allauth.Password.{capability_token}
use jwt_allauth.Password.Accepted.{LetsIn}
use jwt_allauth.Settings.{
  self_registration_enabled, enumeration_prevented, verification_is_mandatory,
}

abbrev adapter : Adapter
adapter = record {
  save_user = λ signup email s. (signup (record alice { id = 9 }), s);
  confirm_email = λ user s. s;
  complete_signup = λ user s. s;
}

signup_reveals_nothing_example :
    (register cfg adapter jwt (request 5) 61 70 db).0
    ≡ (register cfg adapter jwt (request 5) 61 71 db).0
unfolding enumeration_prevented verification_is_mandatory
signup_reveals_nothing_example =
    signup_reveals_nothing cfg adapter jwt (request 5) 61 70 71 db db refl

registration_spares_claimed_example :
    first (has_id 7) (claim_email cfg open_endpoint 0 70 false db).1.users ≡ some alice
unfolding first account_is_claimed mailbox_control_proven
registration_spares_claimed_example =
    registration_spares_claimed cfg open_endpoint 0 70 false db alice refl refl

-- An invited account, which has no password, and the key that was mailed to it.
abbrev carol : User
carol = record alice { usable_password = false; is_staff = false }

abbrev invited : Db
invited = create_token 0 7 90 invitation (record db { users = carol ∷ [] })

abbrev access_of_carol : Payload
access_of_carol = capability_token cfg jwt (request 1) carol pass_set_access

invitation_justified_example :
    let s' = (claim_invitation cfg jwt (request 1) 90 89 (λ s. some s) invited).1 in
    (entry : GenericTokenModel) × (user : User) × (pk : ℕ) × (first
        (is_live_confirmation cfg second 90 89)
        invited.tokens
      ≡ some entry)
    × (first (has_id entry.user) invited.users ≡ some user)
    × ((same_purpose entry.purpose invitation ≡ true) ⊎ (self_registration_enabled cfg ≡ false))
    × (user.is_active ≡ true)
    × (user.usable_password ≡ false)
    × LetsIn cfg user pass_set_access access_of_carol
    × (select (is_of user.id pass_set_access) s'.tokens
        ≡ new_token second pk user.id access_of_carol.jti pass_set_access ∷ [])
unfolding claim_invitation serve_confirmation serves_invitation confirm_key first
invitation_justified_example =
    invitation_justified cfg jwt jwt-JwtLaws (request 1) 90 89 (λ s. some s) invited access_of_carol
      refl

-- Spaces collapse, ß is two letters as a capital, and a name with the capital of ÿ is not accepted.
name_settles_example : validate_name (codes "Émile Zola") ≡ ok (codes "Émile Zola")
unfolding validate_name matches rest_matches is_allowed collapse split join_rest capitalize upper
    lower exists
name_settles_example = name_settles (codes "émile  ZOLA") (codes "Émile Zola") refl

capital_of_y :
    (validate_name (codes "ÿves") ≡ ok (codes "Ÿves"))
    × (validate_name (codes "Ÿves") ≡ err validation_error)
unfolding validate_name matches rest_matches is_allowed collapse split join_rest capitalize upper
    lower
capital_of_y = (refl, refl)
