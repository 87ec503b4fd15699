-- ===== src/Mfa/Verify.antt =====
-- `MFAVerifyView.post` and `MFAVerifyRecoveryView.post` of jwt_allauth/mfa/views.py, from the point
-- where the mode is read. Whether a code is right is what allauth answers, the argument `accepts`.
pub mod Lockout
use jwt_allauth.Base.{
  ℕ, Bool, true, false, not, ◌||◌, Option, none, some, ltb, ◌==◌, if◌then◌else◌, Result, ok, err,
  exists,
}
use jwt_allauth.Db.{User, Db}
use jwt_allauth.Failure.{Failure}
use jwt_allauth.Mfa.Attempts.{
  FailedAttemptResult, login_lockout_remaining, record_failed_login_attempt,
  clear_failed_login_attempts,
}
use jwt_allauth.Mfa.Gate.{is_disabled, open_session}
use jwt_allauth.Mfa.Storage.{get_login_challenge_user, delete_login_challenge}
use jwt_allauth.Session.{Tokens, has_id}
use jwt_allauth.Settings.{Settings}
use jwt_allauth.Token.{Jwt, Request}

-- The responses, by what they say; `raised` is an exception on the way.
pub data Response : Type 0 where
  disabled not_installed bad_challenge not_activated invalid_code invalidated : Response
  locked_out : ℕ → Response
  opened : Tokens → Response
  raised : Failure → Response

-- The answer to a wrong code.
unfoldable pub after_failure : FailedAttemptResult → Response
after_failure r =
    if r.locked_out
    then locked_out r.retry_after
    else if r.challenge_invalidated
    then invalidated
    else invalid_code

unfoldable pub after_success : Settings → Jwt → Request → ℕ → User → Db → Response × Db
after_success cfg j req challenge user s =
    let s1 = clear_failed_login_attempts user.id (delete_login_challenge challenge s) in
    let (r, s2) = open_session cfg j req user s1 in
    (elim r [ ok t ↦ opened t | err e ↦ raised e ], s2)

-- From the user of the challenge on. `enrolled` is whether the authenticator that the view reads is
-- there, TOTP for the one and recovery codes for the other.
unfoldable pub check_code :
    Settings
    → Jwt
    → Request
    → (Db → ℕ → Bool)
    → (User → ℕ → Bool)
    → ℕ
    → ℕ
    → User
    → Db
    → Response × Db
unfolding after_failure after_success
check_code cfg j req enrolled accepts challenge code user s =
    let retry_after = login_lockout_remaining cfg req.now user.id s in
    let (failure, s') = record_failed_login_attempt cfg req.now challenge user.id s in
    if ltb 0 retry_after
    then (locked_out retry_after, s)
    else if not (enrolled s user.id)
    then (not_activated, s)
    else if not (accepts user code)
    then (after_failure failure, s')
    else after_success cfg j req challenge user s

unfoldable pub verify :
    Settings
    → Bool
    → Jwt
    → Request
    → (Db → ℕ → Bool)
    → (User → ℕ → Bool)
    → ℕ
    → ℕ
    → Db
    → Response × Db
unfolding check_code
verify cfg available j req enrolled accepts challenge code s =
    let (found, s') = get_login_challenge_user req.now challenge s in
    if is_disabled cfg.totp_mode
    then (disabled, s)
    else if not available
    then (not_installed, s)
    else elim found [
      | none ↦ (bad_challenge, s')
      | some id ↦ elim (jwt_allauth.Base.first (has_id id) s'.users) [
        | none ↦ (bad_challenge, s')
        | some user ↦ check_code cfg j req enrolled accepts challenge code user s'
      ]
    ]
