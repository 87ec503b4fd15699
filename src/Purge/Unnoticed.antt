-- ===== src/Purge/Unnoticed.antt =====
-- A run of the command is not noticed by what is still in use.
use jwt_allauth.Base.{ℕ, List, refl, ◌+◌, ◌≤◌, ◌≡◌, ◌⊎◌, ◌∙◌, ap, false, true, some, arith, first}
use jwt_allauth.Db.{
  RefreshTokenWhitelistModel, Db, login_challenge, setup_challenge, setup_secret, login_attempt,
}
use jwt_allauth.Mfa.Attempts.{attempt_max_age, login_lockout_remaining}
use jwt_allauth.Mfa.Storage.{
  get_login_challenge_user, get_setup_challenge_user, load_setup_secret, Vault, token_max_age,
  newest_live,
}
use jwt_allauth.Purge.{purge, purge_sessions, retentions, refresh_lifetime}
use jwt_allauth.Purge.Command.{handle, purge-sum}
use jwt_allauth.Purge.Outcome.{Covers, purge_changes_no_outcome}
use jwt_allauth.Purge.Sessions.{purge_keeps_session}
use jwt_allauth.Session.{has_jti, session_is_active}
use jwt_allauth.Settings.{Settings}

-- The outcomes read the tokens and the users, and not the whitelist.
module _ (now n : ℕ) (s : Db) (rows : List RefreshTokenWhitelistModel) where
  login-whitelist :
      (get_login_challenge_user now n (record s { whitelist = rows })).0
      ≡ (get_login_challenge_user now n s).0
  unfolding get_login_challenge_user newest_live
  login-whitelist = ground arith

  setup-whitelist :
      (get_setup_challenge_user now n (record s { whitelist = rows })).0
      ≡ (get_setup_challenge_user now n s).0
  unfolding get_setup_challenge_user newest_live
  setup-whitelist = ground arith

  secret-whitelist :
      (v : Vault)
      → (load_setup_secret v now n (record s { whitelist = rows })).0
        ≡ (load_setup_secret v now n s).0
  unfolding load_setup_secret newest_live
  secret-whitelist v = ground arith

  lockout-whitelist :
      (cfg : Settings)
      → login_lockout_remaining cfg now n (record s { whitelist = rows })
        ≡ login_lockout_remaining cfg now n s
  unfolding login_lockout_remaining
  lockout-whitelist cfg = refl

-- A run of the command, whose two purges each have their instant, changes no outcome of the second
-- factor, at the instant of its first purge or at a later one,
-- unless the setting shortens a retention below the life of its tokens: the challenges name the users
-- that they named, a setup secret is the one it was, and the remaining lockout of a user is the same.
-- And the row that a refresh token names is still the row it names, and its session is still active, as
-- long as the lifetime of a refresh token or of an access token since it was created has not passed at
-- the second purge.
pub command_changes_no_outcome :
    (cfg : Settings) (v : Vault) (run later now challenge user jti : ℕ) (s : Db)
    (row : RefreshTokenWhitelistModel)
    → run ≤ now
    → Covers login_challenge token_max_age (retentions cfg)
    → Covers setup_challenge token_max_age (retentions cfg)
    → Covers setup_secret token_max_age (retentions cfg)
    → Covers login_attempt (attempt_max_age cfg) (retentions cfg)
    → first (has_jti jti) s.whitelist ≡ some row
    → (later ≤ row.created + refresh_lifetime cfg)
      ⊎ (later ≤ row.created + cfg.access_token_lifetime)
    → let s' = (handle cfg false run later s).1 in
      ((get_login_challenge_user now challenge s').0 ≡ (get_login_challenge_user now challenge s).0)
      × ((get_setup_challenge_user now challenge s').0
          ≡ (get_setup_challenge_user now challenge s).0)
      × ((load_setup_secret v now user s').0 ≡ (load_setup_secret v now user s).0)
      × (login_lockout_remaining cfg now user s' ≡ login_lockout_remaining cfg now user s)
      × (first (has_jti jti) s'.whitelist ≡ some row)
      × (session_is_active row.session s' ≡ true)
unfolding handle purge_sessions
command_changes_no_outcome cfg v run later now challenge user jti s row le login setup secret
      attempt found alive =
    let s1 = (purge cfg false run s).1 in
    let kept = (purge-sum cfg run s).1 in
    let (logs_in, sets_up, loads, locks) =
      purge_changes_no_outcome cfg v run now challenge user s le login setup secret attempt in
    let (names, active) =
      purge_keeps_session cfg later jti s1 row (ap (first (has_jti jti)) kept ∙ found) alive in
    let rows = (purge_sessions cfg false later s1).1.whitelist in
    (
      login-whitelist now challenge s1 rows ∙ logs_in,
      setup-whitelist now challenge s1 rows ∙ sets_up,
      secret-whitelist now user s1 rows v ∙ loads,
      lockout-whitelist now user s1 rows cfg ∙ locks,
      names,
      active,
    )
