-- ===== src/Mfa/Enrol/Activation.antt =====
-- The activation of a second factor turns on a right code (`MFAActivateView.post`).
use jwt_allauth.Base.{
  ℕ, ◌≡◌, ◌⊎◌, refl, ◌∙◌, sym, ap, inl, inr, Bool, true, false, ◌&&◌, ◌||◌, not, Option, none, some,
  List, [], ◌∷◌, ◌++◌, ◌==◌, ==_refl, ==→eq, arith, Bool-cases, Option-cases, Result-cases, ok,
  delete, exists, first, first-holds,
}
use jwt_allauth.Db.{User, Db}
use jwt_allauth.Mfa.Gate.{is_disabled}
use jwt_allauth.Mfa.Storage.{Vault, get_setup_challenge_user, newest_live, load_setup_secret}
use jwt_allauth.Session.{has_id}
use jwt_allauth.Session.Frame.{for_user-Frame}
use jwt_allauth.Settings.{Settings, verification_is_mandatory}
use jwt_allauth.Token.{Jwt, Request, is_email_verified}
use jwt_allauth.Mfa.Enrol.{
  Authenticators, AuthenticatorsLaws, EnrolRequest, has_permission, enrolled_user, owned_by,
  activate_for, bootstrap_session, settle, enrol, confirm_code, activate,
}

pub permission-totp :
    (now : ℕ) (r : EnrolRequest) (s : Db) → (has_permission now r s).1.totp ≡ s.totp
unfolding has_permission get_setup_challenge_user newest_live
permission-totp now r s = ground arith

pub load_secret-totp :
    (v : Vault) (now user : ℕ) (s : Db) → (load_setup_secret v now user s).1.totp ≡ s.totp
unfolding load_setup_secret newest_live
load_secret-totp v now user s = ground arith

-- An authenticator that was made and is removed again leaves the others.
delete_last :
    (user : ℕ) (owners : List ℕ)
    → exists (owned_by user) owners ≡ false
    → delete (owned_by user) (owners ++ user ∷ []) ≡ owners
unfolding delete exists
delete_last user [] free = ground (arith, ==_refl user)
delete_last user (o ∷ owners) free = ground (arith, delete_last user owners)

settle-totp :
    (x : Authenticators) (challenge : Option ℕ) (user : User) (s : Db)
    → (settle x challenge user s).totp ≡ s.totp
unfolding settle
settle-totp x none user s = refl
settle-totp x (some challenge) user s = refl

module _ (cfg : Settings) (j : Jwt) (req : Request) (x : Authenticators) (r : EnrolRequest)
    (user : User) where
  bootstrap-totp :
      (codes : List ℕ) (s : Db) → (bootstrap_session cfg j req user codes s).1.totp ≡ s.totp
  unfolding bootstrap_session
  bootstrap-totp codes s = ground (
    arith,
    (for_user-Frame cfg j req
        (not (verification_is_mandatory cfg && not (is_email_verified s user.id))) none user
        s).totp,
  )

  enrol-totp : (s : Db) → (enrol cfg j req x r user s).1.totp ≡ s.totp
  unfolding enrol
  enrol-totp s = ground (
    arith,
    settle-totp x r.setup_challenge_id user s,
    bootstrap-totp (x.unused_codes user.id) (settle x r.setup_challenge_id user s),
  )

  -- The code decides: a right one leaves the authenticator that was made, and else the table of
  -- authenticators is as before.
  confirm_code-totp :
      (plain : ℕ) (s : Db)
      → AuthenticatorsLaws x
      → let s' = (confirm_code cfg j req x r user plain s).1 in
        (s'.totp ≡ s.totp)
        ⊎ ((x.validate_code plain r.code ≡ true)
            × (exists (owned_by user.id) s.totp ≡ false)
            × (s'.totp ≡ s.totp ++ user.id ∷ []))
  unfolding confirm_code
  confirm_code-totp plain s laws = elim (Bool-cases (exists (owned_by user.id) s.totp)) [
    | inl taken ↦ inl (rw (confirm_code, laws.once user.id plain s.totp taken) refl)
    | inr free ↦ elim (Bool-cases (x.validate_code plain r.code)) [
      | inl right ↦ inr (
        right,
        free,
        rw (confirm_code, laws.makes user.id plain s.totp free, right)
            (enrol-totp (record s { totp = s.totp ++ user.id ∷ [] })),
      )
      | inr wrong ↦ inl (
          rw (confirm_code, laws.makes user.id plain s.totp free, wrong)
            (delete_last user.id s.totp free))
    ]
  ]

-- Whose enrolment it is: the user that the access token names, or the owner of a live setup challenge.
abbrev pub Enrols : ℕ → EnrolRequest → ℕ → Db → Type 0
Enrols now r user s =
    (r.caller ≡ some user)
    ⊎ ((challenge : ℕ) × (owner : User) × (r.caller ≡ none)
        × (r.setup_challenge_id ≡ some challenge)
        × ((get_setup_challenge_user now challenge s).0 ≡ some owner)
        × (owner.id ≡ user))

pub permitted-Enrols :
    (now : ℕ) (r : EnrolRequest) (s : Db) (user : User)
    → let ((permitted, setup_user), s') = has_permission now r s in
      (enrolled_user r setup_user s').0 ≡ ok user → Enrols now r user.id s
unfolding has_permission enrolled_user
permitted-Enrols now r s user h = elim (Option-cases r.caller) [
  | inr (id, named) ↦
      let found : first (has_id id) s.users ≡ some user = ground arith in
      inl (named ∙ ap some (sym (==→eq user.id id (first-holds (has_id id) s.users found))))
  | inl nobody ↦ elim (Option-cases r.setup_challenge_id) [
    | inl nothing ↦ absurd (ground arith)
    | inr (challenge, given) ↦ inr (challenge, user, nobody, given, ground arith, refl)
  ]
]

module _ (cfg : Settings) (available : Bool) (j : Jwt) (req : Request) (v : Vault)
    (x : Authenticators) (r : EnrolRequest) where
  activate_for-totp :
      (user : User) (s : Db)
      → AuthenticatorsLaws x
      → let s' = (activate_for cfg j req v x r user s).1 in
        (s'.totp ≡ s.totp)
        ⊎ ((plain : ℕ) × ((load_setup_secret v req.now user.id s).0 ≡ some plain)
            × (x.validate_code plain r.code ≡ true)
            × (exists (owned_by user.id) s.totp ≡ false)
            × (s'.totp ≡ s.totp ++ user.id ∷ []))
  unfolding activate_for
  activate_for-totp user s laws =
      let s1 = (load_setup_secret v req.now user.id s).1 in
      let same : s1.totp ≡ s.totp = load_secret-totp v req.now user.id s in
      elim (Option-cases (load_setup_secret v req.now user.id s).0) [
        | inl none_stored ↦ inl (rw (activate_for, none_stored) same)
        | inr (plain, stored) ↦ elim (Bool-cases (plain == v.empty_text)) [
          | inl empty ↦ inl (rw (activate_for, stored, empty) same)
          | inr full ↦ elim (confirm_code-totp cfg j req x r user plain s1 laws) [
            | inl kept ↦ inl (rw (activate_for, stored, full) (kept ∙ same))
            | inr (right, free, made) ↦ inr (
              plain,
              stored,
              right,
              rw (sym same) free,
              rw (activate_for, stored, full) (made ∙ ap (λ owners. owners ++ user.id ∷ []) same),
            )
          ]
        ]
      ]

  -- Nobody gets a second factor without a code for it: an activation leaves the table of TOTP
  -- authenticators as it is, whatever it answers, or the request is of the user that an access token
  -- names or of the owner of a live setup challenge, the code is right for the setup secret that is
  -- stored for this user, who had no second factor before, and has one after.
  pub activation_needs_code :
      (s : Db)
      → AuthenticatorsLaws x
      → let s' = (activate cfg available j req v x r s).1 in
        (s'.totp ≡ s.totp)
        ⊎ ((user : ℕ) × (plain : ℕ) × Enrols req.now r user s
            × ((load_setup_secret v req.now user (has_permission req.now r s).1).0 ≡ some plain)
            × (x.validate_code plain r.code ≡ true)
            × (exists (owned_by user) s.totp ≡ false)
            × (s'.totp ≡ s.totp ++ user ∷ []))
  unfolding activate
  activation_needs_code s laws =
      let ((permitted, setup_user), s0) = has_permission req.now r s in
      let same : s0.totp ≡ s.totp = permission-totp req.now r s in
      elim (Bool-cases (not permitted || is_disabled cfg.totp_mode || not available)) [
        | inl refused ↦ inl (ground arith)
        | inr open_to ↦ elim (Result-cases (enrolled_user r setup_user s0).0) [
          | inr (e, failed) ↦ inl (ground arith)
          | inl (user, found) ↦ elim (activate_for-totp user s0 laws) [
            | inl kept ↦ inl (ground arith)
            | inr (plain, stored, right, free, made) ↦ inr (
              user.id,
              plain,
              permitted-Enrols req.now r s user found,
              stored,
              right,
              rw (sym same) free,
              ground arith,
            )
          ]
        ]
      ]
