-- ===== src/Mfa/Verify/Lockout.antt =====
-- What a session that a code opened went through.
use jwt_allauth.Base.{
  subst, none, ok, ℕ, ◌+◌, ◌≤◌, ◌<◌, ◌≡◌, ◌∙◌, ap, inl, inr, Bool, true, false, some, arith, select,
  exists, count, first, first-holds, ==→eq, sym, Option-cases, Result-cases, exists-delete_self,
  exists-delete-false,
}
use jwt_allauth.Db.{GenericTokenModel, User, Db, login_challenge}
use jwt_allauth.Generic.{is_token}
use jwt_allauth.Mfa.Attempts.{is_recent_attempt, is_attempt_of, clear_failed_login_attempts}
use jwt_allauth.Mfa.Gate.{open_session}
use jwt_allauth.Mfa.Lockout.{not_locked}
use jwt_allauth.Mfa.Storage.{
  token_max_age, is_expired, latest, newest_live, get_login_challenge_user, delete_login_challenge,
}
use jwt_allauth.Mfa.Verify.{opened, after_failure, after_success, check_code, verify}
use jwt_allauth.Password.Handover.{open_session-keeps}
use jwt_allauth.Session.{Tokens, has_id}
use jwt_allauth.Session.Steps.{for_user-cases}
use jwt_allauth.Settings.{Settings}
use jwt_allauth.Token.{Jwt, JwtLaws, Request, access_token}
use jwt_allauth.Token.Access.{access_token-names}

-- The row of a challenge that still names its user.
live-row :
    (now challenge id : ℕ) (s : Db)
    → (get_login_challenge_user now challenge s).0 ≡ some id
    → (row : GenericTokenModel) × (latest (select (is_token challenge login_challenge) s.tokens)
        ≡ some row)
      × (now ≤ row.created + token_max_age)
      × (row.user ≡ id)
      × ((get_login_challenge_user now challenge s).1 ≡ s)
unfolding get_login_challenge_user newest_live is_expired
live-row now challenge id s h =
    elim (Option-cases (latest (select (is_token challenge login_challenge) s.tokens))) [
      | inl nothing ↦ absurd (ground arith)
      | inr (row, newest) ↦ (row, newest, ground arith, ground arith, ground arith)
    ]

module _ (cfg : Settings) (j : Jwt) (laws : JwtLaws j) (req : Request) where
  -- Tokens of the user and of a new session.
  abbrev pub TokensOf : User → Tokens → Type 0
  TokensOf user t =
      (t.refresh.user_id ≡ some user.id)
      × (t.refresh.session ≡ some req.fresh_session)
      × (t.access.user_id ≡ some user.id)
      × (t.access.session ≡ some req.fresh_session)

  open_session-TokensOf :
      (user : User) (s : Db) (t : Tokens)
      → (open_session cfg j req user s).0 ≡ ok t
      → TokensOf user t
  unfolding open_session
  open_session-TokensOf user s t h = elim (for_user-cases cfg j laws req true none user s) [
    | inr (e, failed, same) ↦ absurd (ground arith)
    | inl (p, made, o) ↦
        let (access_user, access_session) = access_token-names cfg j req.now p in
        let its : record { access = access_token cfg j req.now p; refresh = p } ≡ t =
          ground arith in
        subst (TokensOf user) its (
          o.user_id,
          o.session,
          access_user ∙ laws.access_user req.now p ∙ o.user_id,
          access_session ∙ laws.access_session req.now p ∙ o.session,
        )
  ]

  after_success-opens :
      (challenge : ℕ) (user : User) (s : Db) (t : Tokens)
      → (after_success cfg j req challenge user s).0 ≡ opened t
      → TokensOf user t
        × (exists
              (is_token challenge login_challenge)
              (after_success cfg j req challenge user s).1.tokens
            ≡ false)
  unfolding after_success clear_failed_login_attempts
  after_success-opens challenge user s t h =
      let s1 = clear_failed_login_attempts user.id (delete_login_challenge challenge s) in
      let (kept, _) = open_session-keeps cfg j req user s1 in
      elim (Result-cases (open_session cfg j req user s1).0) [
        | inr (e, failed) ↦ absurd (ground arith)
        | inl (t', made) ↦ (
          open_session-TokensOf user s1 t (ground arith),
          ap (exists (is_token challenge login_challenge)) kept
              ∙ exists-delete-false (is_token challenge login_challenge) (is_attempt_of user.id) _
                  (exists-delete_self (is_token challenge login_challenge) s.tokens),
        )
      ]

module _ (cfg : Settings) (available : Bool) (j : Jwt) (laws : JwtLaws j) (req : Request)
    (enrolled : Db → ℕ → Bool) (accepts : User → ℕ → Bool) where
  -- A session is opened only for a right code of the user of a live challenge, who is enrolled and
  -- has fewer failures in the window than the limit, where there is one. The challenge is the newest
  -- row of its identifier and within its age, the tokens are of its user and of a new session, and
  -- the challenge is gone afterwards.
  pub opened_was_verified :
      (challenge code : ℕ) (s : Db) (t : Tokens)
      → (verify cfg available j req enrolled accepts challenge code s).0 ≡ opened t
      → let s' = (verify cfg available j req enrolled accepts challenge code s).1 in
        (row : GenericTokenModel) × (user : User) × (latest
            (select (is_token challenge login_challenge) s.tokens)
          ≡ some row)
        × (req.now ≤ row.created + token_max_age)
        × (row.user ≡ user.id)
        × (first (has_id user.id) s.users ≡ some user)
        × (accepts user code ≡ true)
        × (enrolled s user.id ≡ true)
        × (0 < cfg.mfa_max_attempts
            → count (is_recent_attempt cfg req.now user.id) s.tokens < cfg.mfa_max_attempts)
        × TokensOf cfg j laws req user t
        × (exists (is_token challenge login_challenge) s'.tokens ≡ false)
  unfolding verify check_code after_failure
  opened_was_verified challenge code s t h =
      elim (Option-cases (get_login_challenge_user req.now challenge s).0) [
        | inl nobody ↦ absurd (ground arith)
        | inr (id, found) ↦
            let (row, newest, in_time, its, same) = live-row req.now challenge id s found in
            elim (Option-cases (first (has_id id) s.users)) [
              | inl missing ↦ absurd (ground arith)
              | inr (user, there) ↦
                  let owner = ==→eq user.id id (first-holds (has_id id) s.users there) in
                  let (its_tokens, gone) =
                    after_success-opens cfg j laws req challenge user s t (ground arith) in
                  (
                    row,
                    user,
                    newest,
                    in_time,
                    its ∙ sym owner,
                    ap (λ n. first (has_id n) s.users) owner ∙ there,
                    ground arith,
                    ground arith,
                    λ limited. not_locked cfg req.now user.id s limited (ground arith),
                    its_tokens,
                    ground (arith, gone),
                  )
            ]
      ]
