-- ===== src/Mfa/Enrol/Bootstrap.antt =====
-- The session that an enrolment opens for an account that waited on it (`MFAActivateView.post`), and
-- the confirmation of its address.
use jwt_allauth.Base.{ℕ, ◌≡◌, ◌⊎◌, Bool, true, false, ◌&&◌, not, some, List, err, is_some}
use jwt_allauth.Db.{User, Db}
use jwt_allauth.Failure.{not_verified_email}
use jwt_allauth.Mfa.Gate.{is_required}
use jwt_allauth.Mfa.Storage.{Vault}
use jwt_allauth.Session.{refresh_token, Tokens}
use jwt_allauth.Settings.{Settings, verification_is_mandatory}
use jwt_allauth.Token.{Payload, Jwt, JwtLaws, Request, is_email_verified}
use jwt_allauth.Mfa.Enrol.Quiet.{Quiet}
use jwt_allauth.Mfa.Enrol.{Authenticators, EnrolRequest, ActivateResponse, withheld, opened}

-- Whether mandatory verification withholds the session of a user.
abbrev pub verification_pending : Settings → ℕ → Db → Bool
verification_pending cfg user s = verification_is_mandatory cfg && not (is_email_verified s user)

module _ (cfg : Settings) (j : Jwt) (laws : JwtLaws j) (req req' : Request) where
  -- What a bootstrap hands out: a session for a confirmed address, or where none has to be, and else
  -- a refresh token that waits.
  abbrev pub Outcome : User → List ℕ → Db → ActivateResponse → Db → Type 0
  Outcome user codes s res s' =
      ((verification_pending cfg user.id s ≡ false)
        × ((t : Tokens) × (res ≡ opened codes t) × (t.refresh.user_id ≡ some user.id)))
      ⊎ ((verification_pending cfg user.id s ≡ true)
          × ((t : Payload) × (res ≡ withheld codes t)
              × (refresh_token cfg j req' (some t) s' ≡ (err not_verified_email, s'))))

module _ (cfg : Settings) (j : Jwt) (laws : JwtLaws j) (req req' : Request) (v : Vault)
    (x : Authenticators) (r : EnrolRequest) where
  -- An answer to a user opens no session, or it is the bootstrap of a required second factor.
  abbrev pub Granted : User → Db → ActivateResponse → Db → Type 0
  Granted user s res s' =
      (s'.whitelist ≡ s.whitelist)
      ⊎ ((is_required cfg.totp_mode ≡ true)
          × (is_some r.setup_challenge_id ≡ true)
          × Outcome cfg j laws req req' user (x.unused_codes user.id) s res s')
