-- ===== src/Mfa/Gate/Agreement.antt =====
-- The question and the challenge of jwt_allauth/mfa/gate.py agree, and a login passes the gate.
use jwt_allauth.Base.{
  ℕ, ◌≡◌, ◌⊎◌, refl, Bool, true, false, not, Option, none, some, arith, Result, ok,
}
use jwt_allauth.Db.{User, Db}
use jwt_allauth.Failure.{Failure}
use jwt_allauth.Mfa.Gate.{
  second_factor_pending, Challenge, mfa_challenge, allauth_authenticate, tokens, after_gate, login,
}
use jwt_allauth.Session.{Tokens}
use jwt_allauth.Settings.{Settings, verification_is_mandatory}
use jwt_allauth.Token.{Jwt, Request, is_email_verified}

-- The caller may proceed to mint a session.
abbrev pub lets_through : Result Failure (Option Challenge) → Bool
lets_through (ok none) = true
lets_through _ = false

-- The gate lets a session through exactly when no second factor is pending, and writes nothing then.
pub gate_agrees :
    (cfg : Settings) (available : Bool) (now fresh user : ℕ) (s : Db)
    → (lets_through (mfa_challenge cfg available now fresh user s).0
        ≡ not (second_factor_pending cfg available s user))
      × ((second_factor_pending cfg available s user ≡ true)
          ⊎ ((mfa_challenge cfg available now fresh user s).1 ≡ s))
unfolding mfa_challenge second_factor_pending
gate_agrees cfg available now fresh user s = (ground arith, ground arith)

-- A login that answers with tokens has authenticated an active user, with a confirmed address where
-- verification is mandatory, for whom no second factor is pending.
pub login_lets_in :
    (cfg : Settings) (available : Bool) (j : Jwt) (req : Request) (fresh : ℕ)
    (authenticated : Option User) (s : Db) (t : Tokens)
    → (login cfg available j req fresh authenticated s).0 ≡ ok (tokens t)
    → (user : User) × (authenticated ≡ some user)
      × (user.is_active ≡ true)
      × ((verification_is_mandatory cfg ≡ false) ⊎ (is_email_verified s user.id ≡ true))
      × (second_factor_pending cfg available s user.id ≡ false)
unfolding login allauth_authenticate after_gate mfa_challenge second_factor_pending
login_lets_in cfg available j req fresh none s t h = absurd (cc)
login_lets_in cfg available j req fresh (some user) s t h =
    (user, refl, ground arith, ground arith, ground arith)
