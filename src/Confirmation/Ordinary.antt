-- ===== src/Confirmation/Ordinary.antt =====
-- The confirmation of an address by its owner: `VerifyEmailView.get` and `_start_session` of
-- jwt_allauth/registration/email_verification/views.py. `owner` is the user of the confirmation that
-- allauth finds for the key, and `confirm` what its confirmation does.
use jwt_allauth.Base.{
  ℕ, ◌≡◌, refl, ◌∙◌, sym, ap, inl, inr, Bool, true, false, not, ◌&&◌, Option, none, some, List, [],
  ◌∷◌, arith, ◌==◌, ==→eq, Bool-cases, ok, err, Exec, pure, gets, or_raise, modify, ◌>>=◌, ◌>>◌,
  if◌then◌else◌, exists, first, first-cons_hit, first-holds, first-append_left, exists_of_first,
  ==_refl,
}
use jwt_allauth.Claim.{attribute_map}
use jwt_allauth.Confirmation.{Landing, claim_invitation}
use jwt_allauth.Db.{RefreshTokenWhitelistModel, User, Db}
use jwt_allauth.Failure.{Failure, does_not_exist, disabled, not_verified_email}
use jwt_allauth.Session.{
  has_jti, has_id, of_user, for_user, enable_session, enable_first, Tokens, refresh_token, reject,
}
use jwt_allauth.Session.Frame.{for_user-Frame}
use jwt_allauth.Session.Refusals.{rotate-disabled}
use jwt_allauth.Session.Renewal.{rotation_succeeds}
use jwt_allauth.Session.Steps.{for_user-cases, refresh_token-rejected}
use jwt_allauth.Settings.{Settings, invitations_enabled}
use jwt_allauth.Token.{
  Payload, Jwt, JwtLaws, Request, is_email_verified, session_is_over, conflicts,
}

-- `_start_session`: the refresh token of the cookie, if there is one
unfoldable pub start_session : Settings → Jwt → Request → User → Exec Db Failure (Option Payload)
start_session cfg j req user =
    if not cfg.session_on_email_verification
    then pure none
    else if not cfg.as_cookie
    then pure none
    else do refresh ← for_user cfg j req true none user; pure (some refresh)

-- The default flow of `VerifyEmailView.get`; where allauth finds no confirmation it raises `Http404`.
unfoldable pub confirm_ordinary :
    Settings → Jwt → Request → Option User → (Db → Db) → Exec Db Failure (Option Payload)
confirm_ordinary cfg j req owner confirm = do
  user ← or_raise owner does_not_exist
  modify (enable_session user.id)
  completes_signup ← gets (λ s. not (is_email_verified s user.id))
  modify confirm
  if completes_signup then start_session cfg j req user else pure none

pub data VerifyResponse : Type 0 where
  landing : Landing → VerifyResponse
  landed : Option Payload → VerifyResponse

land : Settings → Jwt → Request → Option User → (Db → Db) → Exec Db Failure VerifyResponse
land cfg j req owner confirm = do
  cookie ← confirm_ordinary cfg j req owner confirm
  pure (landed cookie)

-- `VerifyEmailView.get`: an invitation is claimed first.
unfoldable pub verify_email :
    Settings
    → Jwt
    → Request
    → ℕ
    → ℕ
    → (Db → Option Db)
    → (Db → Option User)
    → (Db → Db)
    → Exec Db Failure VerifyResponse
unfolding land
verify_email cfg j req digest key claim owner confirm s =
    let (claimed, s') = claim_invitation cfg j req digest key claim s in
    if invitations_enabled cfg
    then elim claimed [
      | some page ↦ (ok (landing page), s')
      | none ↦ land cfg j req (owner s') confirm s'
    ]
    else land cfg j req (owner s) confirm s

-- What the code relies on: the confirmation of an address writes no session and no user.
pub record ConfirmLaws (confirm : Db → Db) : Type 0 where
  pub whitelist : (s : Db) → (confirm s).whitelist ≡ s.whitelist
  pub users : (s : Db) → (confirm s).users ≡ s.users

enabled_row :
    (user n : ℕ) (rows : List RefreshTokenWhitelistModel) (row : RefreshTokenWhitelistModel)
    → first (of_user user) rows ≡ some row
    → first (has_jti n) rows ≡ some row
    → first (has_jti n) (enable_first user rows) ≡ some (record row { enabled = true })
unfolding first enable_first
enabled_row user n [] row its found = absurd (cc)
enabled_row user n (r ∷ rows) row its found = elim (Bool-cases (r.user == user)) [
  | inl hit ↦
      let same : r ≡ row = first-cons_hit (of_user user) rows hit its in
      let fits : has_jti n r ≡ true =
        ap (has_jti n) same ∙ first-holds (has_jti n) (r ∷ rows) found in
      rw (hit, fits)
        (ap (λ (a : RefreshTokenWhitelistModel). some (record a { enabled = true })) same)
  | inr miss ↦ elim (Bool-cases (has_jti n r)) [
    | inl fits ↦
        let same : r ≡ row = first-cons_hit (has_jti n) rows fits found in
        absurd (ground (arith, ap (of_user user) same, first-holds (of_user user) (r ∷ rows) its))
    | inr other_jti ↦
        rw (miss, other_jti) (enabled_row user n rows row (rw miss at its) (rw other_jti at found))
  ]
]

module _ (cfg : Settings) (j : Jwt) (laws : JwtLaws j) where
  -- Whether a session is started or not, a row that was there is there, and the users are the same.
  start_session-keeps :
      (req : Request) (user : User) (s s' : Db) (r : Option Payload)
      (p : RefreshTokenWhitelistModel → Bool) {row : RefreshTokenWhitelistModel}
      → start_session cfg j req user s ≡ (ok r, s')
      → first p s.whitelist ≡ some row
      → (first p s'.whitelist ≡ some row) × (s'.users ≡ s.users)
  unfolding start_session
  start_session-keeps req user s s' r p h found =
      elim (Bool-cases (cfg.session_on_email_verification && cfg.as_cookie)) [
        | inr nothing ↦ (ground arith, ground arith)
        | inl starts ↦ elim (for_user-cases cfg j laws req true none user s) [
          | inr (e, failed, same) ↦ absurd (ground arith)
          | inl (t, made, o) ↦
              let left : (for_user cfg j req true none user s).1 ≡ s' = ground arith in
              let kept = for_user-Frame cfg j req true none user s in
              (
                rw (sym left, o.written) (first-append_left p s.whitelist _ found),
                rw (sym left) kept.users,
              )
        ]
      ]

  confirm_ordinary-keeps :
      (req : Request) (user : User) (confirm : Db → Db) (s s' : Db) (r : Option Payload)
      (p : RefreshTokenWhitelistModel → Bool) {row : RefreshTokenWhitelistModel}
      → ConfirmLaws confirm
      → confirm_ordinary cfg j req (some user) confirm s ≡ (ok r, s')
      → first p (enable_first user.id s.whitelist) ≡ some row
      → (first p s'.whitelist ≡ some row) × (s'.users ≡ s.users)
  unfolding confirm_ordinary enable_session
  confirm_ordinary-keeps req user confirm s s' r p {row} claws h found =
      let s1 = confirm (enable_session user.id s) in
      let found1 : first p s1.whitelist ≡ some row =
        rw (claws.whitelist (enable_session user.id s)) found in
      let users1 : s1.users ≡ s.users = claws.users (enable_session user.id s) in
      elim (Bool-cases (is_email_verified (enable_session user.id s) user.id)) [
        | inl verified ↦
            let left : s1 ≡ s' = ground arith in (rw (sym left) found1, rw (sym left) users1)
        | inr fresh ↦
            let kept = start_session-keeps req user s1 s' r p (ground arith) found1 in
            (kept.0, kept.1 ∙ users1)
      ]

  -- A sign-up that waits for its address is unlocked by the confirmation. Before it, the refresh token
  -- that the sign-up handed out, whose row is not enabled and the first one of its user, is refused
  -- because the address is not confirmed, and nothing is written. After a confirmation by this user
  -- that succeeds, whether or not it starts another session, the same token is rotated, if the user is
  -- active, the session is not over, the jti that is drawn is free and the configured attribute names
  -- do not clash.
  pub confirmation_unlocks_signup :
      (req req' : Request) (p : Payload) (row : RefreshTokenWhitelistModel) (user : User) (x : ℕ)
      (confirm : Db → Db) (s s' : Db) (r : Option Payload)
      → ConfirmLaws confirm
      → first (of_user user.id) s.whitelist ≡ some row
      → first (has_jti p.jti) s.whitelist ≡ some row
      → row.enabled ≡ false
      → first (has_id user.id) s.users ≡ some user
      → is_email_verified s user.id ≡ false
      → user.is_active ≡ true
      → p.session ≡ some x
      → p.user_id ≡ some user.id
      → confirm_ordinary cfg j req (some user) confirm s ≡ (ok r, s')
      → session_is_over cfg j req'.now p ≡ false
      → exists (has_jti req'.fresh_jti) s'.whitelist ≡ false
      → conflicts (attribute_map cfg.user_attributes) ≡ false
      → (refresh_token cfg j req' (some p) s ≡ (err not_verified_email, s))
        × ((t : Tokens) × ((refresh_token cfg j req' (some p) s').0 ≡ ok t))
  unfolding reject
  confirmation_unlocks_signup req req' p row user x confirm s s' r claws its found off there
        unverified active in_it owned confirmed alive free names =
      let owner : row.user ≡ user.id =
        ==→eq row.user user.id (first-holds (of_user user.id) s.whitelist its) in
      let (kept, users) =
        confirm_ordinary-keeps req user confirm s s' r (has_jti p.jti) claws confirmed
          (enabled_row user.id p.jti s.whitelist row its found) in
      let there' : first (has_id user.id) s'.users ≡ some user = rw users there in
      (
        refresh_token-rejected cfg j req' p x (disabled user) s in_it
              (rotate-disabled cfg j req' p row user s found off (rw owner there))
            ∙ rw unverified refl,
        rotation_succeeds cfg j req' p s' (record row { enabled = true }) user x user.id kept refl
            (rw owner there') active alive in_it owned
            (exists_of_first (has_id user.id) (has_id user.id) s'.users there' (==_refl user.id))
            free names,
      )
