-- ===== src/Examples/Tokens.antt =====
-- Single-use tokens, the claims that are read again, roles and throttles.
use jwt_allauth.Base.{◌≡◌, ◌+◌, refl, true, none, some, [], ◌∷◌, arith, ok, exists, first, count}
use jwt_allauth.Claim.{Claim, attribute_map}
use jwt_allauth.Db.{Db, pass_reset, pass_reset_access}
use jwt_allauth.Examples.{cfg, jwt, jwt-JwtLaws, request, alice, token, db}
use jwt_allauth.Generic.{create_token, winners}
use jwt_allauth.Generic.SingleUse.{one_winner}
use jwt_allauth.Password.{capability, capability_token, link_invalid, confirm_reset}
use jwt_allauth.Password.Accepted.{LetsIn}
use jwt_allauth.Password.Links.{
  ResetForm, ResetFormLaws, reset_mail_sent, request_reset, reset_link_replaces,
}
use jwt_allauth.Roles.{ExtraFields, get_user_role}
use jwt_allauth.Token.{
  Payload, sync_user_claims, set_user_attributes, write_attributes, write_attribute,
  drop_configured, lookup_attribute, is_email_verified, conflicts,
}
use jwt_allauth.Token.Sync.{sync_refreshes_claims}

-- A reset link of alice.
abbrev linked : Db
linked = create_token 0 7 50 pass_reset db

one_winner_example : winners 3 50 pass_reset linked ≡ 1
unfolding count
one_winner_example = one_winner 2 50 pass_reset linked (omega arith)

-- Django's form, where every address is alice's.
abbrev django_form : ResetForm
django_form = record { get_users = λ email s. 7 ∷ []; save = λ email generator s. generator 7 s }

django_form-ResetFormLaws : ResetFormLaws django_form
django_form-ResetFormLaws = record { save_each = λ email generator s. refl }

abbrev requested : Db
requested = (request_reset django_form 9 (λ user. 44 + user) true true 70 linked).1

reset_link_replaces_example :
    let cookie = capability_token cfg jwt (request 1) alice pass_reset_access in
    ((confirm_reset cfg jwt (request 1) (some 7) (λ user. true) 51 requested).0 ≡ capability cookie)
    × LetsIn cfg alice pass_reset_access cookie
    × ((confirm_reset cfg jwt (request 1) (some 7) (λ user. true) 50 requested).0 ≡ link_invalid)
    × (ok reset_mail_sent ≡ (request_reset django_form 9 (λ user. 44 + user) true true 70 db).0)
unfolding request_reset exists first
reset_link_replaces_example =
    reset_link_replaces cfg jwt jwt-JwtLaws django_form django_form-ResetFormLaws 9 (request 1)
      (λ user. 44 + user) 50 70 alice (λ user. true) linked db refl refl refl refl refl
      (ground arith) ((λ same. refl), tt)

synced : (q : Payload) × (sync_user_claims cfg (request 5) db alice token ≡ ok q)
unfolding sync_user_claims set_user_attributes write_attributes write_attribute drop_configured
    conflicts exists attribute_map
synced = (_, refl)

sync_refreshes_claims_example :
    (synced.0.role ≡ some (get_user_role alice))
    × (synced.0.email_verified ≡ some (is_email_verified db 7))
    × (lookup_attribute 3 synced.0.attributes ≡ some 7)
unfolding attribute_map
sync_refreshes_claims_example =
    sync_refreshes_claims cfg (request 5) db alice token synced.1 3 (Claim.attribute 4 ∷ []) refl

abbrev staff : ExtraFields
staff = record { is_staff = some true; is_superuser = none; role = none }
