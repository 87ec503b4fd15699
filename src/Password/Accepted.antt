-- ===== src/Password/Accepted.antt =====
-- A capability that is handed out is let in by its permission.
use jwt_allauth.Base.{◌≡◌, refl, ◌∙◌, inl, inr, true, false, some, Bool-cases, ok}
use jwt_allauth.Db.{User, Purpose, same_purpose_refl}
use jwt_allauth.Password.{enforce_csrf, csrf_enforced, has_permission, capability_token}
use jwt_allauth.Settings.{Settings}
use jwt_allauth.Token.{Payload, Jwt, JwtLaws, Request}
use jwt_allauth.Token.Access.{access_token-keeps}

-- Whoever brings a capability, past the CSRF check and not authenticated otherwise, is let in for its
-- purpose as its owner.
abbrev pub LetsIn : Settings → User → Purpose → Payload → Type 0
LetsIn cfg user purpose p =
    has_permission cfg purpose false true (some p) ≡ ok (record { owner = user.id; jti = p.jti })

csrf-passed : (cfg : Settings) → enforce_csrf cfg true ≡ ok tt
unfolding enforce_csrf csrf_enforced
csrf-passed cfg = elim (Bool-cases cfg.capability_cookie_csrf) [
  | inl on ↦ rw on refl
  | inr off ↦ rw off refl
]

pub capability_token-LetsIn :
    (cfg : Settings) (j : Jwt) (laws : JwtLaws j) (req : Request) (user : User) (purpose : Purpose)
    → LetsIn cfg user purpose (capability_token cfg j req user purpose)
unfolding capability_token has_permission
capability_token-LetsIn cfg j laws req user purpose =
    let blank : Payload = record (j.blank_token req.now req.fresh_jti) {
      for_user = some user.id;
      one_time_permission = some purpose;
    } in
    let (for_user, permission) = access_token-keeps cfg j req.now blank in
    rw
      (
        permission ∙ laws.access_permission req.now blank,
        for_user ∙ laws.access_for_user req.now blank,
        same_purpose_refl purpose,
        csrf-passed cfg,
      )
      refl
