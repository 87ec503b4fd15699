-- ===== src/Revocation.antt =====
-- jwt_allauth/revocation.py: what a change of credentials takes down.
use jwt_allauth.Base.{ℕ, Bool, not, ◌&&◌, ◌==◌, if◌then◌else◌, delete}
use jwt_allauth.Db.{GenericTokenModel, EmailAddress, Db, login_attempt, same_purpose}
use jwt_allauth.Session.{close_sessions_of}
use jwt_allauth.Settings.{Settings}

-- `filter(user=user).exclude(purpose=MFA_PURPOSE_LOGIN_ATTEMPT)`
abbrev pub is_capability_of : ℕ → GenericTokenModel → Bool
is_capability_of user row = row.user == user && not (same_purpose row.purpose login_attempt)

-- `filter(user=user, verified=False, primary=False)`
abbrev pub is_address_in_flight : ℕ → EmailAddress → Bool
is_address_in_flight user e = e.user == user && not e.verified && not e.primary

unfoldable pub revoke_on_credential_change : Settings → ℕ → Db → Db
revoke_on_credential_change cfg user s =
    let closed = close_sessions_of user s in
    if not cfg.logout_on_password_change then s else record closed {
      tokens = delete (is_capability_of user) closed.tokens;
      emails = delete (is_address_in_flight user) closed.emails;
    }
