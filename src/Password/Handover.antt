-- ===== src/Password/Handover.antt =====
-- A change of the password hands the account over: a capability serves once, and what the old
-- credentials reach is gone.
use jwt_allauth.Base.{
  ℕ, ◌≡◌, ◌≢◌, refl, ◌∙◌, sym, ap, inl, inr, Bool, true, false, none, List, [], ◌∷◌, ◌++◌, arith,
  ==_refl, ==→eq, eq-false, Option-cases, Result-cases, ok, err, select, delete, exists, first,
  first-holds, count-zero, select-append, select-none, select-delete, exists-delete_self,
  exists-delete-false,
}
use jwt_allauth.Db.{RefreshTokenWhitelistModel, User, Db, Purpose, pass_reset_access}
use jwt_allauth.Failure.{invalid_token}
use jwt_allauth.Generic.{is_token, delete_tokens, consume}
use jwt_allauth.Mfa.Gate.{open_session}
use jwt_allauth.Password.{
  Capability, load_capability_user, save_password, session, redeem, reset_password,
}
use jwt_allauth.Revocation.{is_capability_of, is_address_in_flight, revoke_on_credential_change}
use jwt_allauth.Session.{of_user, has_id, new_row, new_session_token, for_user, Tokens}
use jwt_allauth.Session.Steps.{save_session-cases, for_user-cases}
use jwt_allauth.Settings.{Settings}
use jwt_allauth.Token.{Jwt, JwtLaws, Request}

pub redeem-ok :
    (cfg : Settings) (purpose : Purpose) (valid : Bool) (c : Capability) (s : Db) (user : User)
    → (redeem cfg purpose valid c s).0 ≡ ok user
    → (user.id ≡ c.owner)
      × (user.is_active ≡ true)
      × ((redeem cfg purpose valid c s).1
          ≡ revoke_on_credential_change cfg user.id
              (save_password user.id (delete_tokens (is_token c.jti purpose) s)))
unfolding redeem load_capability_user consume
redeem-ok cfg purpose valid c s user h = elim (Option-cases (first (has_id c.owner) s.users)) [
  | inl gone ↦ absurd (ground arith)
  | inr (found, there) ↦
      let is_owner = ==→eq found.id c.owner (first-holds (has_id c.owner) s.users there) in
      (ground arith, ground arith, ground arith)
]

redeem-spent :
    (cfg : Settings) (purpose : Purpose) (valid : Bool) (c : Capability) (s : Db)
    → exists (is_token c.jti purpose) (redeem cfg purpose valid c s).1.tokens ≡ false
unfolding redeem load_capability_user consume save_password revoke_on_credential_change
redeem-spent cfg purpose valid c s =
    let its_row = is_token c.jti purpose in
    let spent = exists-delete_self its_row s.tokens in
    elim (Option-cases (first (has_id c.owner) s.users)) [
      | inl gone ↦ ground arith
      | inr (found, there) ↦
          let revoked =
            exists-delete-false its_row (is_capability_of found.id) (delete its_row s.tokens)
              spent in
          ground arith
    ]

redeem-refused :
    (cfg : Settings) (purpose : Purpose) (valid : Bool) (c : Capability) (s : Db)
    → exists (is_token c.jti purpose) s.tokens ≡ false
    → (redeem cfg purpose valid c s).0 ≡ err invalid_token
unfolding redeem consume
redeem-refused cfg purpose valid c s spent =
    rw (count-zero (is_token c.jti purpose) s.tokens spent) refl

-- A new session is written to the whitelist alone.
pub open_session-keeps :
    (cfg : Settings) (j : Jwt) (req : Request) (user : User) (s : Db)
    → let s' = (open_session cfg j req user s).1 in (s'.tokens ≡ s.tokens) × (s'.emails ≡ s.emails)
unfolding open_session for_user
open_session-keeps cfg j req user s =
    elim (Result-cases (new_session_token cfg j req none user s)) [
      | inr (e, failed) ↦ (ground arith, ground arith)
      | inl (t, made) ↦ elim (save_session-cases req.now t.jti req.fresh_session user.id true s) [
        | inl refused ↦ (ground (arith, refused), ground (arith, refused))
        | inr (free, saved) ↦ (ground (arith, saved), ground (arith, saved))
      ]
    ]

reset-tokens :
    (cfg : Settings) (j : Jwt) (req : Request) (valid : Bool) (c : Capability) (s : Db)
    → (reset_password cfg j req valid c s).1.tokens
      ≡ (redeem cfg pass_reset_access valid c s).1.tokens
unfolding reset_password
reset-tokens cfg j req valid c s = elim (Result-cases (redeem cfg pass_reset_access valid c s).0) [
  | inr (e, failed) ↦ ground arith
  | inl (user, redeemed) ↦
      let (same, _) =
        open_session-keeps cfg j req user (redeem cfg pass_reset_access valid c s).1 in
      ground arith
]

-- A reset spends its capability, whatever comes of it: the next reset with it is refused.
pub capability_single_use :
    (cfg : Settings) (j : Jwt) (req req' : Request) (valid valid' : Bool) (c : Capability) (s : Db)
    → (reset_password cfg j req' valid' c (reset_password cfg j req valid c s).1).0
      ≡ err invalid_token
unfolding reset_password
capability_single_use cfg j req req' valid valid' c s =
    let spent =
      ap (exists (is_token c.jti pass_reset_access)) (reset-tokens cfg j req valid c s)
      ∙ redeem-spent cfg pass_reset_access valid c s in
    let refused =
      redeem-refused cfg pass_reset_access valid' c (reset_password cfg j req valid c s).1 spent in
    ground arith

append-nil : {A : Type 0} (xs : List A) → xs ++ [] ≡ xs
append-nil [] = refl
append-nil (x ∷ xs) = ap (λ ys. x ∷ ys) (append-nil xs)

module _ (u : ℕ) (rows : List RefreshTokenWhitelistModel) (row : RefreshTokenWhitelistModel)
    (its : row.user ≡ u) where
  own-rows : select (of_user u) (delete (of_user u) rows ++ row ∷ []) ≡ row ∷ []
  unfolding select
  own-rows =
      rw
        (
          select-append,
          select-none (of_user u) _ (exists-delete_self (of_user u) rows),
          its,
          ==_refl u,
        )
        refl

  other-rows :
      (other : ℕ)
      → other ≢ u
      → select (of_user other) (delete (of_user u) rows ++ row ∷ []) ≡ select (of_user other) rows
  unfolding select
  other-rows other apart =
      rw
        (
          select-append,
          select-delete (of_user other) (of_user u) (λ x fits. ground arith) rows,
          its,
          eq-false u other (λ e. apart (sym e)),
        )
        (append-nil (select (of_user other) rows))

-- The session that follows a revocation.
revoked_then_opened :
    (cfg : Settings) (j : Jwt) (laws : JwtLaws j) (req : Request) (user : User) (s : Db)
    (t : Tokens) (other : ℕ)
    → (open_session cfg j req user (revoke_on_credential_change cfg user.id s)).0 ≡ ok t
    → cfg.logout_on_password_change ≡ true
    → other ≢ user.id
    → let s' = (open_session cfg j req user (revoke_on_credential_change cfg user.id s)).1 in
      (select (of_user user.id) s'.whitelist
        ≡ new_row req.now s.next_pk t.refresh.jti req.fresh_session user.id true ∷ [])
      × (exists (is_capability_of user.id) s'.tokens ≡ false)
      × (exists (is_address_in_flight user.id) s'.emails ≡ false)
      × (select (of_user other) s'.whitelist ≡ select (of_user other) s.whitelist)
unfolding open_session revoke_on_credential_change
revoked_then_opened cfg j laws req user s t other h on apart =
    let closed = revoke_on_credential_change cfg user.id s in
    elim (for_user-cases cfg j laws req true none user closed) [
      | inr (e, failed, same) ↦ absurd (ground arith)
      | inl (p, made, opened) ↦
          let row = new_row req.now s.next_pk t.refresh.jti req.fresh_session user.id true in
          let (same_tokens, same_emails) = open_session-keeps cfg j req user closed in
          let same_token : t.refresh ≡ p = ground arith in
          let written : (open_session cfg j req user closed).1.whitelist
              ≡ delete (of_user user.id) s.whitelist ++ row ∷ [] =
            ground arith in
          (
            ap (select (of_user user.id)) written ∙ own-rows user.id s.whitelist row refl,
            ap (exists (is_capability_of user.id)) same_tokens
                ∙ ground (arith, exists-delete_self (is_capability_of user.id) s.tokens),
            ap (exists (is_address_in_flight user.id)) same_emails
                ∙ ground (arith, exists-delete_self (is_address_in_flight user.id) s.emails),
            ap (select (of_user other)) written
                ∙ other-rows user.id s.whitelist row refl other apart,
          )
    ]

-- A reset that opens a session, where revocation is on: the one session of the owner is the new one,
-- nothing that the old credentials reach is left of the capabilities and addresses in flight, and the
-- sessions of any other user are untouched.
pub reset_hands_over :
    (cfg : Settings) (j : Jwt) (laws : JwtLaws j) (req : Request) (valid : Bool) (c : Capability)
    (s : Db) (t : Tokens) (other : ℕ)
    → (reset_password cfg j req valid c s).0 ≡ ok (session t)
    → cfg.logout_on_password_change ≡ true
    → other ≢ c.owner
    → let s' = (reset_password cfg j req valid c s).1 in
      (select (of_user c.owner) s'.whitelist
        ≡ new_row req.now s.next_pk t.refresh.jti req.fresh_session c.owner true ∷ [])
      × (exists (is_capability_of c.owner) s'.tokens ≡ false)
      × (exists (is_address_in_flight c.owner) s'.emails ≡ false)
      × (select (of_user other) s'.whitelist ≡ select (of_user other) s.whitelist)
unfolding reset_password save_password
reset_hands_over cfg j laws req valid c s t other h on apart =
    elim (Result-cases (redeem cfg pass_reset_access valid c s).0) [
      | inr (e, failed) ↦ absurd (ground arith)
      | inl (user, redeemed) ↦
          let (is_owner, active, revoked) =
            redeem-ok cfg pass_reset_access valid c s user redeemed in
          let s0 = save_password user.id (delete_tokens (is_token c.jti pass_reset_access) s) in
          let opened : (open_session cfg j req user (revoke_on_credential_change cfg user.id s0)).0
              ≡ ok t =
            ground arith in
          let facts =
            revoked_then_opened cfg j laws req user s0 t other opened on
              (λ e. apart (e ∙ is_owner)) in
          let same_state : (reset_password cfg j req valid c s).1
              ≡ (open_session cfg j req user (revoke_on_credential_change cfg user.id s0)).1 =
            ground arith in
          rw (same_state, sym is_owner) facts
    ]
