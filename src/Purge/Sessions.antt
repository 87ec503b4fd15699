-- ===== src/Purge/Sessions.antt =====
-- A purge of the whitelist leaves the sessions that are alive.
use jwt_allauth.Base.{
  ℕ, ◌+◌, ◌≤◌, ◌≡◌, ◌⊎◌, inl, inr, true, false, some, arith, ==_refl, delete, first,
  first-delete_kept, exists_of_first,
}
use jwt_allauth.Db.{RefreshTokenWhitelistModel, Db}
use jwt_allauth.Purge.{refresh_lifetime, session_retention, expired_session, purge_sessions}
use jwt_allauth.Session.{has_jti, in_session, session_is_active}
use jwt_allauth.Settings.{Settings}

-- The row that a refresh token names is still the row it names, and its session is still active, as
-- long as the lifetime of a refresh token or of an access token has not passed since it was created.
pub purge_keeps_session :
    (cfg : Settings) (now jti : ℕ) (s : Db) (row : RefreshTokenWhitelistModel)
    → first (has_jti jti) s.whitelist ≡ some row
    → (now ≤ row.created + refresh_lifetime cfg) ⊎ (now ≤ row.created + cfg.access_token_lifetime)
    → let s' = (purge_sessions cfg false now s).1 in
      (first (has_jti jti) s'.whitelist ≡ some row) × (session_is_active row.session s' ≡ true)
unfolding purge_sessions session_is_active session_retention
purge_keeps_session cfg now jti s row found alive =
    let kept = young alive in
    let again = first-delete_kept (has_jti jti) (expired_session cfg now) s.whitelist found kept in
    (
      again,
      exists_of_first (has_jti jti) (in_session row.session)
          (delete (expired_session cfg now) s.whitelist) again (==_refl row.session),
    )
  where
    young :
        ((now ≤ row.created + refresh_lifetime cfg)
          ⊎ (now ≤ row.created + cfg.access_token_lifetime))
        → expired_session cfg now row ≡ false
    young (inl in_time) = ground arith
    young (inr in_time) = ground arith
