-- ===== src/Registration/Enumeration.antt =====
-- What a sign-up tells about an address.
use jwt_allauth.Base.{
  ℕ, ◌≡◌, refl, ◌∙◌, sym, inl, inr, Bool, true, false, not, Option, none, some, arith,
  if◌then◌else◌, Bool-cases, Option-cases, Result-cases, ok, Exec, atomic, ◌>>=◌,
}
use jwt_allauth.Db.{User, Db}
use jwt_allauth.Accounts.{superseded_accounts}
use jwt_allauth.Mfa.Gate.{is_required}
use jwt_allauth.Registration.{
  Adapter, open_endpoint, validate_email, claim_email, hide_conflict, after_signup, create_account,
  make_account, save_account, RegisterResponse, not_found, created, mfa_setup_required, answer,
  first_token, response_of, register,
}
use jwt_allauth.Settings.{
  Settings, enumeration_prevented, verification_is_mandatory, self_registration_enabled,
}
use jwt_allauth.Token.{Jwt, Request}

-- The response that does not depend on the address.
blind_response : Settings → ℕ → RegisterResponse
blind_response cfg fresh =
    if not (self_registration_enabled cfg)
    then not_found
    else if is_required cfg.totp_mode
    then mfa_setup_required fresh (verification_is_mandatory cfg)
    else created (verification_is_mandatory cfg) none none

answer-blind :
    (cfg : Settings) (j : Jwt) (req : Request) (fresh : ℕ) (user : Option User) (s : Db)
    → enumeration_prevented cfg ≡ true
    → self_registration_enabled cfg ≡ true
    → (answer cfg j req fresh user s).0 ≡ ok (blind_response cfg fresh)
unfolding answer first_token response_of blind_response
answer-blind cfg j req fresh none s hidden opened = ground arith
answer-blind cfg j req fresh (some user) s hidden opened = ground arith

-- Claiming an address never raises while conflicts are hidden.
claim-blind :
    (cfg : Settings) (now email : ℕ) (taken : Bool) (s : Db)
    → enumeration_prevented cfg ≡ true
    → (b : Bool) × ((claim_email cfg open_endpoint now email taken s).0 ≡ ok b)
unfolding claim_email hide_conflict
claim-blind cfg now email true s hidden = (false, refl)
claim-blind cfg now email false s hidden = elim (Bool-cases cfg.allauth_unique_email) [
  | inr shared ↦ (true, ground arith)
  | inl unique ↦ elim (Option-cases (superseded_accounts cfg now email true s)) [
    | inl owned ↦ (false, ground arith)
    | inr (superseded, free) ↦ (true, ground arith)
  ]
]

atomic-ok :
    {S E A B : Type 0} (m : Exec S E A) (k : A → Exec S E B) (s : S) {a : A} {b : B}
    → (m s).0 ≡ ok a
    → (k a (m s).1).0 ≡ ok b
    → (atomic (m >>= k) s).0 ≡ ok b
atomic-ok m k s h e = ground arith

save-blind :
    (cfg : Settings) (a : Adapter) (now email : ℕ) (taken : Bool) (s : Db)
    → enumeration_prevented cfg ≡ true
    → (user : Option User) × ((save_account cfg open_endpoint a now email taken s).0 ≡ ok user)
unfolding save_account
save-blind cfg a now email taken s hidden = made (claim-blind cfg now email taken s hidden)
  where
    made :
        ((b : Bool) × ((claim_email cfg open_endpoint now email taken s).0 ≡ ok b))
        → (user : Option User) × ((save_account cfg open_endpoint a now email taken s).0 ≡ ok user)
    made (true, done) = (
      some (create_account cfg a email (claim_email cfg open_endpoint now email taken s).1).0,
      atomic-ok (claim_email cfg open_endpoint now email taken) (make_account cfg a email) s done
          refl,
    )
    made (false, done) = (
      none,
      atomic-ok (claim_email cfg open_endpoint now email taken) (make_account cfg a email) s done
          refl,
    )

register-blind :
    (cfg : Settings) (a : Adapter) (j : Jwt) (req : Request) (fresh email : ℕ) (s : Db)
    → enumeration_prevented cfg ≡ true
    → (register cfg a j req fresh email s).0 ≡ ok (blind_response cfg fresh)
unfolding register validate_email hide_conflict blind_response
register-blind cfg a j req fresh email s hidden =
    elim (Bool-cases (self_registration_enabled cfg)) [
      | inr closed ↦ ground arith
      | inl opened ↦ elim (Result-cases (validate_email cfg open_endpoint req.now email s)) [
        | inr (e, failed) ↦ absurd (ground arith)
        | inl (taken, checked) ↦
            let (user, saved) = save-blind cfg a req.now email taken s hidden in
            let answered =
              answer-blind cfg j req fresh user
                (after_signup a user (save_account cfg open_endpoint a req.now email taken s).1)
                hidden opened in
            ground (arith, answered, saved)
      ]
    ]

-- While conflicts are hidden, the sign-up answers the same for any two addresses on any two
-- databases, taken or free.
pub signup_reveals_nothing :
    (cfg : Settings) (a : Adapter) (j : Jwt) (req : Request) (fresh email email' : ℕ) (s s' : Db)
    → enumeration_prevented cfg ≡ true
    → (register cfg a j req fresh email s).0 ≡ (register cfg a j req fresh email' s').0
signup_reveals_nothing cfg a j req fresh email email' s s' hidden =
    register-blind cfg a j req fresh email s hidden
    ∙ sym (register-blind cfg a j req fresh email' s' hidden)
