-- ===== src/Confirmation/Invitation.antt =====
-- Who gets the capability to set a first password.
use jwt_allauth.Base.{
  ℕ, ◌≡◌, ◌⊎◌, refl, subst, inl, inr, true, false, Option, some, [], ◌∷◌, arith, ==_refl,
  Option-cases, select, select-append, select-none, exists-delete_self, first,
}
use jwt_allauth.Confirmation.{
  set_password_form, is_live_confirmation, serves_invitation, confirm_key,
  confirm_without_capability, serve_confirmation, claim_invitation,
}
use jwt_allauth.Db.{
  GenericTokenModel, User, Db, Purpose, invitation, pass_set_access, same_purpose,
  same_purpose_refl,
}
use jwt_allauth.Generic.{is_of, new_token}
use jwt_allauth.Password.{capability_token, grant}
use jwt_allauth.Password.Accepted.{LetsIn, capability_token-LetsIn}
use jwt_allauth.Session.{has_id}
use jwt_allauth.Settings.{Settings, self_registration_enabled}
use jwt_allauth.Token.{Payload, Jwt, JwtLaws, Request}

-- A grant leaves one capability of its purpose.
only_grant :
    (now user jti : ℕ) (purpose : Purpose) (s : Db)
    → select (is_of user purpose) (grant now user jti purpose s).tokens
      ≡ new_token now s.next_pk user jti purpose ∷ []
unfolding grant select
only_grant now user jti purpose s =
    rw
      (
        select-append,
        select-none (is_of user purpose) _ (exists-delete_self (is_of user purpose) s.tokens),
        ==_refl user,
        same_purpose_refl purpose,
      )
      refl

-- A confirmation link hands out the capability to set a password only while its entry is live, for an
-- invitation or, with self-service registration closed, for any entry; to a user who is active and has
-- no password yet; the cookie is let in by the permission of the form as the capability of this user, and
-- it is then the only one of its purpose that the user has.
pub invitation_justified :
    (cfg : Settings) (j : Jwt) (laws : JwtLaws j) (req : Request) (digest key : ℕ)
    (confirm : Db → Option Db) (s : Db) (p : Payload)
    → (claim_invitation cfg j req digest key confirm s).0 ≡ some (set_password_form p)
    → let s' = (claim_invitation cfg j req digest key confirm s).1 in
      (entry : GenericTokenModel) × (user : User) × (pk : ℕ) × (first
          (is_live_confirmation cfg req.now digest key)
          s.tokens
        ≡ some entry)
      × (first (has_id entry.user) s.users ≡ some user)
      × ((same_purpose entry.purpose invitation ≡ true) ⊎ (self_registration_enabled cfg ≡ false))
      × (user.is_active ≡ true)
      × (user.usable_password ≡ false)
      × LetsIn cfg user pass_set_access p
      × (select (is_of user.id pass_set_access) s'.tokens
          ≡ new_token req.now pk user.id p.jti pass_set_access ∷ [])
unfolding claim_invitation serve_confirmation serves_invitation confirm_without_capability
invitation_justified cfg j laws req digest key confirm s p h =
    elim (Option-cases (first (is_live_confirmation cfg req.now digest key) s.tokens)) [
      | inl nothing ↦ absurd (ground arith)
      | inr (entry, found) ↦ elim (Option-cases (first (has_id entry.user) s.users)) [
        | inl gone ↦ absurd (ground arith)
        | inr (user, there) ↦
            let s1 = (confirm_key confirm user s).1 in
            (
              entry,
              user,
              s1.next_pk,
              found,
              there,
              ground arith,
              ground arith,
              ground arith,
              subst (LetsIn cfg user pass_set_access) (ground arith)
                  (capability_token-LetsIn cfg j laws req user pass_set_access),
              ground (
                arith,
                only_grant req.now user.id (capability_token cfg j req user pass_set_access).jti
                    pass_set_access s1,
              ),
            )
      ]
    ]
