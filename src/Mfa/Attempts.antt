-- ===== src/Mfa/Attempts.antt =====
-- The limits on failed verifications (jwt_allauth/mfa/storage.py).
use jwt_allauth.Base.{
  ℕ, zero, suc, ◌+◌, ◌-◌, ◌*◌, ◌/◌, max, Bool, true, false, ◌&&◌, Option, none, some, List, [], ◌∷◌,
  ltb, leb, ◌==◌, if◌then◌else◌, select, count, map,
}
use jwt_allauth.Db.{GenericTokenModel, Db, login_attempt, login_challenge, second}
use jwt_allauth.Generic.{is_of, create_token, delete_tokens}
use jwt_allauth.Mfa.Storage.{
  token_max_age, is_older, create_challenge, delete_login_challenge, delete_user_login_challenges,
}
use jwt_allauth.Settings.{Settings}

-- `_failed_attempts_qs`
abbrev pub is_attempt_of : ℕ → GenericTokenModel → Bool
is_attempt_of user row = is_of user login_attempt row

-- `max(get_lockout_seconds(), MFA_TOKEN_MAX_AGE_SECONDS)`
abbrev pub attempt_max_age : Settings → ℕ
attempt_max_age cfg = max (cfg.mfa_lockout_seconds * second) token_max_age

unfoldable pub purge_expired_attempts : Settings → ℕ → ℕ → Db → Db
purge_expired_attempts cfg now user =
    delete_tokens (λ row. is_attempt_of user row && is_older (attempt_max_age cfg) now row.created)

unfoldable pub clear_failed_login_attempts : ℕ → Db → Db
clear_failed_login_attempts user = delete_tokens (is_attempt_of user)

-- `filter(created__gte=now - timedelta(seconds=lockout_seconds))`
abbrev pub is_recent_attempt : Settings → ℕ → ℕ → GenericTokenModel → Bool
is_recent_attempt cfg now user row =
    is_attempt_of user row && leb now (row.created + cfg.mfa_lockout_seconds * second)

-- `order_by("-created")`
unfoldable pub insert_newest : ℕ → List ℕ → List ℕ
insert_newest t [] = t ∷ []
insert_newest t (u ∷ us) = if ltb t u then u ∷ insert_newest t us else t ∷ u ∷ us

unfoldable pub newest_first : List ℕ → List ℕ
unfolding insert_newest
newest_first [] = []
newest_first (t ∷ ts) = insert_newest t (newest_first ts)

-- The element at an index, and none past the end.
unfoldable pub get_elem? : List ℕ → ℕ → Option ℕ
get_elem? [] i = none
get_elem? (x ∷ xs) zero = some x
get_elem? (x ∷ xs) (suc i) = get_elem? xs i

-- `recent[:max_attempts]` is shorter than `max_attempts`, or its last is the one at `max_attempts - 1`.
unfoldable pub login_lockout_remaining : Settings → ℕ → ℕ → Db → ℕ
unfolding newest_first get_elem?
login_lockout_remaining cfg now user s =
    if leb cfg.mfa_max_attempts 0
    then 0
    else let recent = newest_first (
        map (λ (row : GenericTokenModel). row.created)
          (select (is_recent_attempt cfg now user) s.tokens)) in
      elim (get_elem? recent (cfg.mfa_max_attempts - 1)) [
        | none ↦ 0
        | some oldest ↦ max ((oldest + cfg.mfa_lockout_seconds * second - now) / second) 1
      ]

unfoldable pub is_login_locked_out : Settings → ℕ → ℕ → Db → Bool
is_login_locked_out cfg now user s = ltb 0 (login_lockout_remaining cfg now user s)

-- `create_login_challenge`
unfoldable pub create_login_challenge : Settings → ℕ → ℕ → ℕ → Db → Db
unfolding purge_expired_attempts create_challenge
create_login_challenge cfg now fresh user s =
    create_challenge now fresh user login_challenge (purge_expired_attempts cfg now user s)

pub record FailedAttemptResult : Type 0 where
  pub challenge_invalidated : Bool
  pub locked_out : Bool
  pub retry_after : ℕ

abbrev outcome : Bool → Bool → ℕ → FailedAttemptResult
outcome invalidated locked retry = record {
  challenge_invalidated = invalidated;
  locked_out = locked;
  retry_after = retry;
}

-- The part of `record_failed_login_attempt` after the attempt is recorded.
unfoldable pub apply_limits : Settings → ℕ → ℕ → ℕ → Db → FailedAttemptResult × Db
apply_limits cfg now challenge user s =
    let retry_after = login_lockout_remaining cfg now user s in
    let attempts = count (λ row. is_attempt_of user row && row.token == challenge) s.tokens in
    if ltb 0 retry_after
    then (outcome true true retry_after, delete_user_login_challenges user s)
    else if ltb 0 cfg.mfa_challenge_max_attempts && leb cfg.mfa_challenge_max_attempts attempts
    then (outcome true false 0, delete_login_challenge challenge s)
    else (outcome false false 0, s)

unfoldable pub record_failed_login_attempt : Settings → ℕ → ℕ → ℕ → Db → FailedAttemptResult × Db
unfolding purge_expired_attempts apply_limits
record_failed_login_attempt cfg now challenge user s =
    apply_limits cfg now challenge user
      (create_token now user challenge login_attempt (purge_expired_attempts cfg now user s))
