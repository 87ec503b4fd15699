-- ===== src/Permissions/Claims.antt =====
-- What the permissions grant to the tokens of a rotation, and how often a throttle counts.
use jwt_allauth.Base.{
  ℕ, ◌≡◌, ◌||◌, some, List, [], ◌∷◌, arith, ◌==◌, ok, exists, exists-append, first,
}
use jwt_allauth.Db.{RefreshTokenWhitelistModel, User, Db}
use jwt_allauth.Permissions.{
  contains, check_role_permission, base_has_permission, staff_excluded_has_permission,
}
use jwt_allauth.Roles.{staff_code, super_user_code, get_user_role}
use jwt_allauth.Session.{has_jti, has_id, Tokens, rotate}
use jwt_allauth.Session.Renewal.{rotation_rereads_role}
use jwt_allauth.Settings.{Settings}
use jwt_allauth.Token.{Payload, Jwt, JwtLaws, Request}

-- A change of roles takes effect at the next rotation: the access token that it hands out is granted
-- what the role that the owner of the row has in the database now is granted, by a list of roles
-- with and without the staff.
pub rotation_regrants :
    (cfg : Settings) (j : Jwt) (req : Request) (laws : JwtLaws j) (p : Payload) (s : Db)
    (t : Tokens) (s' : Db) (accepted : List ℕ)
    → rotate cfg j req p s ≡ (ok t, s')
    → (row : RefreshTokenWhitelistModel) × (user : User) × (first (has_jti p.jti) s.whitelist
        ≡ some row)
      × (first (has_id row.user) s.users ≡ some user)
      × (base_has_permission (some accepted) (some t.access)
          ≡ ok (
              contains (get_user_role user) accepted
              || (staff_code == get_user_role user || super_user_code == get_user_role user)))
      × (staff_excluded_has_permission (some accepted) (some t.access)
          ≡ ok (contains (get_user_role user) accepted))
unfolding base_has_permission staff_excluded_has_permission check_role_permission contains exists
rotation_regrants cfg j req laws p s t s' accepted rotated =
    let (row, user, found, owner, active, role, _) =
      rotation_rereads_role cfg j req laws p s t s' rotated in
    let split =
      exists-append (λ y. y == get_user_role user) accepted (staff_code ∷ super_user_code ∷ []) in
    (row, user, found, owner, ground (arith, role, split), ground (arith, role))
