-- ===== src/Examples/Sessions.antt =====
-- The session protocol on one session: a rotation, and what follows it.
use jwt_allauth.Base.{
  ◌≤◌, ◌<◌, ◌≡◌, refl, inl, false, some, [], ◌∷◌, arith, ok, err, exists, first, count, delete, ◌+◌,
  ◌*◌, ◌/◌, ◌||◌, ◌==◌,
}
use jwt_allauth.Examples.{cfg, jwt, jwt-JwtLaws, request, alice, row, token, db}
use jwt_allauth.Failure.{invalid_token}
use jwt_allauth.Session.{
  has_jti, has_id, in_session, session_is_active, refresh_token, rotate, admit, hand_out,
  save_session, Tokens,
}
use jwt_allauth.Token.{
  sync_user_claims, set_user_attributes, write_attributes, write_attribute, drop_configured,
  session_is_over, session_deadline, conflicts,
}
use jwt_allauth.Claim.{attribute_map}
use jwt_allauth.Db.{RefreshTokenWhitelistModel, User, second}
use jwt_allauth.Roles.{get_user_role, staff_code, super_user_code}
use jwt_allauth.Permissions.{contains, base_has_permission, staff_excluded_has_permission}
use jwt_allauth.Permissions.Claims.{rotation_regrants}
use jwt_allauth.Session.Protocol.{World, IsFresh, after_refresh, refresh, here, next}
use jwt_allauth.Session.Renewal.{rotation_succeeds, rotation_within_lifetime}
use jwt_allauth.Session.Replay.{reuse_detected, closed_session_stays_closed}
use jwt_allauth.Session.Safety.{IsSafe, one_live_credential}

abbrev pub world : World
world = record { db = db; issued = token ∷ [] }

pub world-IsSafe : IsSafe world
unfolding count
world-IsSafe = record {
  one_per_session = λ x. ground arith;
  one_per_jti = λ n. ground arith;
  genuine = (((λ same. refl), tt), tt);
}

pub world-IsFresh : IsFresh (request 5) world
unfolding exists
world-IsFresh = record { jti = (ground arith, tt); session = (ground arith, tt); unused = refl }

-- The tokens that the rotation hands out.
rotated :
    (t : Tokens) × (rotate cfg jwt (request 5) token db
      ≡ (ok t, (rotate cfg jwt (request 5) token db).1))
unfolding rotate admit hand_out sync_user_claims set_user_attributes write_attributes
    write_attribute drop_configured first exists count delete save_session session_is_over
    session_deadline conflicts attribute_map
rotated = (_, refl)

refreshed : (t : Tokens) × ((refresh_token cfg jwt (request 5) (some token) db).0 ≡ ok t)
unfolding refresh_token rotate admit hand_out sync_user_claims set_user_attributes write_attributes
    write_attribute drop_configured first exists count delete save_session session_is_over
    session_deadline conflicts attribute_map
refreshed = (_, refl)

reuse_detected_example :
    let u = after_refresh cfg jwt (request 5) (some token) world in
    ((refresh_token cfg jwt (request 6) (some token) u.db).0 ≡ err invalid_token)
    × (session_is_active 10 (refresh_token cfg jwt (request 6) (some token) u.db).1 ≡ false)
reuse_detected_example =
    reuse_detected cfg jwt jwt-JwtLaws world (after_refresh cfg jwt (request 5) (some token) world)
      (request 5) (request 6) token 10 refreshed.0 world-IsSafe world-IsFresh (inl refl) refl
      refreshed.1 here

-- A session that was closed: its token is issued and its row gone.
closed : World
closed = record { db = record db { whitelist = [] }; issued = token ∷ [] }

closed-IsSafe : IsSafe closed
unfolding count closed
closed-IsSafe = record {
  one_per_session = λ x. ground arith;
  one_per_jti = λ n. ground arith;
  genuine = (tt, tt);
}

closed_session_stays_closed_example :
    (session_is_active 10 closed.db ≡ false)
    × ((refresh_token cfg jwt (request 6) (some token) closed.db).0 ≡ err invalid_token)
unfolding closed session_is_active exists
closed_session_stays_closed_example =
    closed_session_stays_closed cfg jwt jwt-JwtLaws closed closed (request 6) token token 10
      closed-IsSafe (inl refl) refl refl here (inl refl) refl

one_live_credential_example :
    let u = after_refresh cfg jwt (request 5) (some token) world in
    (count (in_session 10) u.db.whitelist ≤ 1) × (count (has_jti 10) u.db.whitelist ≤ 1)
one_live_credential_example =
    one_live_credential cfg jwt jwt-JwtLaws world
      (after_refresh cfg jwt (request 5) (some token) world) world-IsSafe
      (next here (refresh (request 5) (some token) world-IsFresh (inl refl))) 10

rotation_succeeds_example :
    (t : Tokens) × ((refresh_token cfg jwt (request 5) (some token) db).0 ≡ ok t)
unfolding first session_is_over session_deadline exists conflicts attribute_map
rotation_succeeds_example =
    rotation_succeeds cfg jwt (request 5) token db row alice 10 7 refl refl refl refl refl refl refl
      refl refl refl

rotation_within_lifetime_example :
    ((request 5).now < 0 + 100 * second)
    × (rotated.0.refresh.exp ≤ (0 + 100 * second) / second)
    × (rotated.0.access.exp ≤ (0 + 100 * second) / second)
    × (rotated.0.refresh.session_iat ≡ some 0)
rotation_within_lifetime_example =
    rotation_within_lifetime cfg jwt (request 5) token db rotated.0
      (rotate cfg jwt (request 5) token db).1 0 (100 * second) refl refl rotated.1

rotation_regrants_example :
    (r : RefreshTokenWhitelistModel) × (user : User) × (first (has_jti 1) db.whitelist ≡ some r)
    × (first (has_id r.user) db.users ≡ some user)
    × (base_has_permission (some (300 ∷ [])) (some rotated.0.access)
        ≡ ok (
            contains (get_user_role user) (300 ∷ [])
            || (staff_code == get_user_role user || super_user_code == get_user_role user)))
    × (staff_excluded_has_permission (some (300 ∷ [])) (some rotated.0.access)
        ≡ ok (contains (get_user_role user) (300 ∷ [])))
rotation_regrants_example =
    rotation_regrants cfg jwt (request 5) jwt-JwtLaws token db rotated.0
      (rotate cfg jwt (request 5) token db).1 (300 ∷ []) rotated.1
