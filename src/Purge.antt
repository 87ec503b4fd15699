-- ===== src/Purge.antt =====
-- Retention of the stored tokens (jwt_allauth/tokens/purge.py). A retention is in microseconds.
pub mod Keys
pub mod Outcome
pub mod Command
pub mod Unnoticed
pub mod Sessions
use jwt_allauth.Base.{
  ℕ, ◌+◌, ◌*◌, max, Bool, true, false, not, ◌&&◌, Option, none, some, List, [], ◌∷◌, ltb,
  if◌then◌else◌, delete, exists, count, select,
}
use jwt_allauth.Db.{
  RefreshTokenWhitelistModel, GenericTokenModel, Db, second, day, Purpose, pass_reset, pass_set,
  pass_reset_access, pass_set_access, email_confirmation, invitation, setup_challenge,
  login_challenge, setup_secret, login_attempt, same_purpose,
}
use jwt_allauth.Generic.{delete_tokens}
use jwt_allauth.Mfa.Attempts.{attempt_max_age}
use jwt_allauth.Mfa.Storage.{token_max_age}
use jwt_allauth.Settings.{Settings}

abbrev pub Retentions : Type 0
Retentions = List (Purpose × ℕ)

-- `d[purpose] = retention`: a key that is there keeps its place.
unfoldable pub set_item : Purpose → ℕ → Retentions → Retentions
set_item purpose retention [] = (purpose, retention) ∷ []
set_item purpose retention ((present, old) ∷ d) =
    if same_purpose purpose present
    then (present, retention) ∷ d
    else (present, old) ∷ set_item purpose retention d

-- `known.update(...)`
unfoldable pub update : Retentions → Retentions → Retentions
update known [] = known
update known ((purpose, retention) ∷ rest) = update (set_item purpose retention known) rest

-- `_jwt_lifetime('REFRESH_TOKEN_LIFETIME')`
abbrev pub refresh_lifetime : Settings → ℕ
refresh_lifetime cfg = elim cfg.refresh_token_lifetime [
  | none ↦ cfg.default_refresh_token_lifetime
  | some lifetime ↦ lifetime
]

-- The dictionary `known` of `retentions`, before the setting is merged into it.
unfoldable pub built_in : Settings → Retentions
built_in cfg =
    let reset_link = cfg.password_reset_timeout * second in
    let capability = cfg.access_token_lifetime in
    let confirmation = cfg.allauth_confirmation_expire_days * day in
    (pass_reset, reset_link)
    ∷ (pass_set, reset_link)
    ∷ (pass_reset_access, capability)
    ∷ (pass_set_access, capability)
    ∷ (email_confirmation, confirmation)
    ∷ (invitation, confirmation)
    ∷ (setup_challenge, token_max_age)
    ∷ (login_challenge, token_max_age)
    ∷ (setup_secret, token_max_age)
    ∷ (login_attempt, attempt_max_age cfg)
    ∷ []

unfoldable pub retentions : Settings → Retentions
unfolding built_in update
retentions cfg = update (built_in cfg) cfg.token_retention

-- `expired`, as the test on a row
abbrev pub expired : Purpose → ℕ → ℕ → GenericTokenModel → Bool
expired purpose retention now row =
    same_purpose row.purpose purpose && ltb (row.created + retention) now

abbrev pub report : Purpose → ℕ → Retentions → Retentions
report purpose count removed = if ltb 0 count then (purpose, count) ∷ removed else removed

-- The loop of `purge`: what it reports, by purpose, and the database after it.
unfoldable pub purge_all : Bool → ℕ → Retentions → Db → Retentions × Db
purge_all dry_run now [] s = ([], s)
purge_all dry_run now ((purpose, retention) ∷ rest) s =
    let query = expired purpose retention now in
    let (removed, s') = purge_all dry_run now rest (if dry_run then s else delete_tokens query s) in
    (report purpose (count query s.tokens) removed, s')

unfoldable pub purge : Settings → Bool → ℕ → Db → Retentions × Db
unfolding purge_all
purge cfg dry_run now s = purge_all dry_run now (retentions cfg) s

unfoldable pub session_retention : Settings → ℕ
session_retention cfg = max (refresh_lifetime cfg) cfg.access_token_lifetime

-- `expired_sessions`, as the test on a row
abbrev pub expired_session : Settings → ℕ → RefreshTokenWhitelistModel → Bool
expired_session cfg now row = ltb (row.created + session_retention cfg) now

unfoldable pub purge_sessions : Settings → Bool → ℕ → Db → ℕ × Db
purge_sessions cfg dry_run now s =
    let query = expired_session cfg now in
    (
      count query s.whitelist,
      if dry_run then s else record s { whitelist = delete query s.whitelist },
    )
