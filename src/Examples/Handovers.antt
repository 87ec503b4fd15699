-- ===== src/Examples/Handovers.antt =====
-- A reset of the password with a capability.
use jwt_allauth.Base.{
  ◌*◌, ◌≡◌, refl, true, false, none, some, [], ◌∷◌, arith, ok, select, delete, exists, count, first,
}
use jwt_allauth.Claim.{attribute_map}
use jwt_allauth.Db.{Db, pass_reset_access, second}
use jwt_allauth.Examples.{cfg, payload, jwt, jwt-JwtLaws, request, db}
use jwt_allauth.Failure.{Failure}
use jwt_allauth.Generic.{create_token, consume}
use jwt_allauth.Mfa.Gate.{open_session}
use jwt_allauth.Password.{
  Capability, reset_password, redeem, session, load_capability_user, save_password,
}
use jwt_allauth.Password.Endpoint.{ResetRequest}
use jwt_allauth.Password.Handover.{reset_hands_over}
use jwt_allauth.Revocation.{is_capability_of, is_address_in_flight, revoke_on_credential_change}
use jwt_allauth.Session.{of_user, new_row, Tokens, for_user, new_session_token, save_session}
use jwt_allauth.Token.{Payload, set_user_attributes, write_attributes, write_attribute, conflicts}

abbrev capability : Capability
capability = record { owner = 7; jti = 33 }

abbrev granted : Db
granted = create_token 0 7 33 pass_reset_access db

-- The cookie of alice, and a request that brings it.
abbrev cookie : Payload
cookie = record (payload 0 33 7) {
  user_id = none;
  for_user = some 7;
  one_time_permission = some pass_reset_access;
}

abbrev post : ResetRequest
post = record { authenticated = false; checked = true; valid = true; cookie = some cookie }

reset :
    (t : Tokens) × ((reset_password cfg jwt (request 5) true capability granted).0 ≡ ok (session t))
unfolding reset_password redeem load_capability_user save_password consume
    revoke_on_credential_change open_session for_user new_session_token save_session
    set_user_attributes write_attributes write_attribute conflicts attribute_map exists delete count
    first
reset = (_, refl)

reset_hands_over_example :
    let s' = (reset_password cfg jwt (request 5) true capability granted).1 in
    (select (of_user 7) s'.whitelist ≡ new_row (5 * second) 3 reset.0.refresh.jti 205 7 true ∷ [])
    × (exists (is_capability_of 7) s'.tokens ≡ false)
    × (exists (is_address_in_flight 7) s'.emails ≡ false)
    × (select (of_user 8) s'.whitelist ≡ select (of_user 8) granted.whitelist)
reset_hands_over_example =
    reset_hands_over cfg jwt jwt-JwtLaws (request 5) true capability granted reset.0 8 reset.1 refl
      (ground arith)
