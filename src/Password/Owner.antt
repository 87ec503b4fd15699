-- ===== src/Password/Owner.antt =====
-- A reset is of the owner of its capability and of nobody else.
use jwt_allauth.Base.{
  ℕ, ◌≡◌, ◌≢◌, ◌⊎◌, refl, ◌∙◌, sym, ap, inl, inr, Bool, true, false, none, some, some-eq, ◌&&◌,
  if◌then◌else◌, List, [], ◌∷◌, arith, map, ◌==◌, ==→eq, eq-false, Bool-cases, Option-cases, Result,
  Result-cases, ok, err, first, first-holds,
}
use jwt_allauth.Db.{User, Db, Purpose, pass_reset_access}
use jwt_allauth.Failure.{Failure}
use jwt_allauth.Generic.{consume}
use jwt_allauth.Mfa.Gate.{open_session}
use jwt_allauth.Password.{
  Capability, PasswordResponse, load_capability_user, with_password, save_password, session, redeem,
  reset_password,
}
use jwt_allauth.Revocation.{revoke_on_credential_change}
use jwt_allauth.Session.{has_id, Tokens, for_user, new_session_token}
use jwt_allauth.Session.Steps.{save_session-cases, for_user-cases}
use jwt_allauth.Settings.{Settings}
use jwt_allauth.Token.{Jwt, JwtLaws, Request}

open_session-users :
    (cfg : Settings) (j : Jwt) (req : Request) (user : User) (s : Db)
    → (open_session cfg j req user s).1.users ≡ s.users
unfolding open_session for_user
open_session-users cfg j req user s =
    elim (Result-cases (new_session_token cfg j req none user s)) [
      | inr (e, failed) ↦ ground arith
      | inl (t, made) ↦ elim (save_session-cases req.now t.jti req.fresh_session user.id true s) [
        | inl refused ↦ ground (arith, refused)
        | inr (free, saved) ↦ ground (arith, saved)
      ]
    ]

abbrev pub with_new : User → User
with_new user = record user { usable_password = true }

module _ (owner : ℕ) where
  others-kept :
      (other : ℕ) (users : List User)
      → other ≢ owner
      → first (has_id other) (map (with_password owner) users) ≡ first (has_id other) users
  unfolding first
  others-kept other [] apart = refl
  others-kept other (u ∷ us) apart =
      let rest = others-kept other us apart in
      elim (Bool-cases (u.id == owner)) [
        | inr another ↦ rw (another) (ap (λ x. if u.id == other then some u else x) rest)
        | inl its ↦
            let differs : (u.id == other) ≡ false =
              eq-false u.id other (λ e. apart (sym e ∙ ==→eq u.id owner its)) in
            rw (its, differs) rest
      ]

  owner-saved :
      (users : List User) (user : User)
      → first (has_id owner) users ≡ some user
      → first (has_id owner) (map (with_password owner) users) ≡ some (with_new user)
  unfolding first
  owner-saved [] user found = absurd (cc)
  owner-saved (u ∷ us) user found = elim (Bool-cases (u.id == owner)) [
    | inl hit ↦
        let found' : some u ≡ some user = rw hit at found in
        let saved : with_password owner u ≡ with_new u = rw hit refl in
        rw (saved, hit) (ap (λ x. some (with_new x)) (some-eq found'))
    | inr miss ↦
        let same : with_password owner u ≡ u = rw miss refl in
        rw (same, miss) (owner-saved us user (rw miss at found))
  ]

-- What a redemption leaves of the users.
redeem-users :
    (cfg : Settings) (purpose : Purpose) (valid : Bool) (c : Capability) (s : Db)
    → let s' = (redeem cfg purpose valid c s).1 in
      (s'.users ≡ s.users) ⊎ (s'.users ≡ map (with_password c.owner) s.users)
unfolding redeem load_capability_user consume save_password revoke_on_credential_change
redeem-users cfg purpose valid c s = elim (Option-cases (first (has_id c.owner) s.users)) [
  | inl gone ↦ inl (ground arith)
  | inr (found, there) ↦
      let is_owner = ==→eq found.id c.owner (first-holds (has_id c.owner) s.users there) in
      elim (Bool-cases (consume c.jti purpose s).0) [
        | inr lost ↦ inl (ground arith)
        | inl won ↦ elim (Bool-cases (found.is_active && valid)) [
          | inr refused ↦ inl (ground arith)
          | inl accepted ↦ inr (ground arith)
        ]
      ]
]

redeem-owner :
    (cfg : Settings) (purpose : Purpose) (valid : Bool) (c : Capability) (s : Db) (user : User)
    → (redeem cfg purpose valid c s).0 ≡ ok user
    → (user.id ≡ c.owner)
      × (first (has_id c.owner) s.users ≡ some user)
      × (first (has_id c.owner) (redeem cfg purpose valid c s).1.users ≡ some (with_new user))
unfolding redeem load_capability_user consume save_password revoke_on_credential_change
redeem-owner cfg purpose valid c s user h = elim (Option-cases (first (has_id c.owner) s.users)) [
  | inl gone ↦ absurd (ground arith)
  | inr (found, there) ↦
      let is_owner = ==→eq found.id c.owner (first-holds (has_id c.owner) s.users there) in
      let its : found ≡ user = ground arith in
      let own : user.id ≡ c.owner = ap (λ u. u.id) (sym its) ∙ is_owner in
      let found' : first (has_id c.owner) s.users ≡ some user = there ∙ ap (λ u. some u) its in
      let saved = owner-saved c.owner s.users user found' in (own, found', ground (arith, saved))
]

-- The outcome of a reset: an error, or the tokens of the owner, whose password is saved.
abbrev pub OwnOutcome : Capability → Db → Result Failure PasswordResponse → Db → Type 0
OwnOutcome c s answer s' =
    ((e : Failure) × (answer ≡ err e))
    ⊎ ((t : Tokens) × (user : User) × (answer ≡ ok (session t))
        × (t.refresh.user_id ≡ some c.owner)
        × (first (has_id c.owner) s.users ≡ some user)
        × (first (has_id c.owner) s'.users ≡ some (with_new user)))

pub reset-others :
    (cfg : Settings) (j : Jwt) (req : Request) (valid : Bool) (c : Capability) (s : Db) (other : ℕ)
    → other ≢ c.owner
    → first (has_id other) (reset_password cfg j req valid c s).1.users
      ≡ first (has_id other) s.users
unfolding reset_password
reset-others cfg j req valid c s other apart =
    let s1 = (redeem cfg pass_reset_access valid c s).1 in
    let redeemed : first (has_id other) s1.users ≡ first (has_id other) s.users =
      elim (redeem-users cfg pass_reset_access valid c s) [
        | inl same ↦ ap (first (has_id other)) same
        | inr saved ↦ ap (first (has_id other)) saved ∙ others-kept c.owner other s.users apart
      ] in
    elim (Result-cases (redeem cfg pass_reset_access valid c s).0) [
      | inr (e, failed) ↦ ground (arith, redeemed)
      | inl (user, accepted) ↦ ground (arith, redeemed, open_session-users cfg j req user s1)
    ]

module _ (cfg : Settings) (j : Jwt) (laws : JwtLaws j) (req : Request) where
  open_session-owner :
      (user : User) (s : Db) (t : Tokens)
      → (open_session cfg j req user s).0 ≡ ok t
      → t.refresh.user_id ≡ some user.id
  unfolding open_session
  open_session-owner user s t h = elim (for_user-cases cfg j laws req true none user s) [
    | inr (e, failed, same) ↦ absurd (ground arith)
    | inl (p, made, o) ↦
        let its : t.refresh ≡ p = ground arith in ap (λ q. q.user_id) its ∙ o.user_id
  ]

  pub reset-OwnOutcome :
      (valid : Bool) (c : Capability) (s : Db)
      → let (answer, s') = reset_password cfg j req valid c s in OwnOutcome c s answer s'
  unfolding reset_password
  reset-OwnOutcome valid c s = elim (Result-cases (redeem cfg pass_reset_access valid c s).0) [
    | inr (e, failed) ↦ inl (e, ground arith)
    | inl (user, accepted) ↦
        let s1 = (redeem cfg pass_reset_access valid c s).1 in
        let (its_id, found, after) = redeem-owner cfg pass_reset_access valid c s user accepted in
        elim (Result-cases (open_session cfg j req user s1).0) [
          | inr (e, failed) ↦ inl (e, ground arith)
          | inl (t, opened) ↦
              let kept = open_session-users cfg j req user s1 in
              inr (
                t,
                user,
                ground arith,
                open_session-owner user s1 t opened ∙ ap (λ n. some n) its_id,
                found,
                ground (arith, kept, after),
              )
        ]
  ]
