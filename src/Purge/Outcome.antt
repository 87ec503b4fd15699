-- ===== src/Purge/Outcome.antt =====
-- A purge changes no outcome of the second factor.
use jwt_allauth.Base.{
  ℕ, ◌≤◌, ◌≡◌, ◌⊎◌, refl, ◌∙◌, ap, sym, inl, inr, Bool, true, false, Option, none, some, List, [],
  ◌∷◌, arith, ◌==◌, if◌then◌else◌, All, Bool-cases, select, delete, first, select-delete, first,
}
use jwt_allauth.Db.{
  GenericTokenModel, User, Db, Purpose, setup_challenge, login_challenge, setup_secret,
  login_attempt, same_purpose,
}
use jwt_allauth.Generic.{is_token, is_of, delete_tokens}
use jwt_allauth.Mfa.Attempts.{attempt_max_age, is_recent_attempt, login_lockout_remaining}
use jwt_allauth.Mfa.Storage.{
  token_max_age, is_older, is_expired, later, latest, newest_live, get_login_challenge_user,
  get_setup_challenge_user, Vault, load_setup_secret, decrypt_secret,
}
use jwt_allauth.Purge.{Retentions, retentions, expired, purge_all, purge}
use jwt_allauth.Settings.{Settings}

live : ℕ → Option GenericTokenModel → Option GenericTokenModel
live now none = none
live now (some row) = if is_expired now row.created then none else some row

later-live :
    (now : ℕ) (row : GenericTokenModel) (m n : Option GenericTokenModel)
    → live now m ≡ live now n
    → live now (some (later row m)) ≡ live now (some (later row n))
unfolding live is_expired
later-live now row none none h = refl
later-live now row none (some b) h = ground arith
later-live now row (some a) none h = ground arith
later-live now row (some a) (some b) h = ground arith

later-expired :
    (now : ℕ) (row : GenericTokenModel) (m : Option GenericTokenModel)
    → is_expired now row.created ≡ true
    → live now (some (later row m)) ≡ live now m
unfolding live is_expired
later-expired now row none h = ground arith
later-expired now row (some a) h = ground arith

newest-delete :
    (now : ℕ) (q d : GenericTokenModel → Bool)
    → ((row : GenericTokenModel) → q row ≡ true → d row ≡ true → is_expired now row.created ≡ true)
    → (rows : List GenericTokenModel)
    → live now (latest (select q (delete d rows))) ≡ live now (latest (select q rows))
unfolding select delete latest
newest-delete now q d past [] = refl
newest-delete now q d past (row ∷ rows) = elim (Bool-cases (q row)) [
  | inr misses ↦ elim (Bool-cases (d row)) [
    | inl gone ↦ rw (gone, misses) (newest-delete now q d past rows)
    | inr kept ↦ rw (kept, misses) (newest-delete now q d past rows)
  ]
  | inl fits ↦ elim (Bool-cases (d row)) [
    | inl gone ↦
        rw (gone, fits)
          (newest-delete now q d past rows
            ∙ sym (later-expired now row (latest (select q rows)) (past row fits gone)))
    | inr kept ↦
        rw (kept, fits)
          (later-live now row (latest (select q (delete d rows))) (latest (select q rows))
            (newest-delete now q d past rows))
  ]
]

-- Each retention of a purpose is at least an age.
abbrev pub Covers : Purpose → ℕ → Retentions → Type 0
Covers purpose age = All (λ e. (same_purpose e.0 purpose ≡ false) ⊎ (age ≤ e.1))

-- What a purge deletes of a purpose is older than the age.
purged-older :
    (purpose p : Purpose) (age r purged now : ℕ) (row : GenericTokenModel)
    → purged ≤ now
    → (same_purpose p purpose ≡ false) ⊎ (age ≤ r)
    → same_purpose row.purpose purpose ≡ true
    → expired p r purged row ≡ true
    → is_older age now row.created ≡ true
purged-older purpose p age r purged now row le covers fits gone = ground arith

module _ (purpose : Purpose) (purged now : ℕ) (le : purged ≤ now) (q : GenericTokenModel → Bool)
    (of_purpose : (row : GenericTokenModel)
      → q row ≡ true
      → same_purpose row.purpose purpose ≡ true) where
  newest-purge_all :
      (d : Retentions) (s : Db)
      → Covers purpose token_max_age d
      → live now (latest (select q (purge_all false purged d s).1.tokens))
        ≡ live now (latest (select q s.tokens))
  unfolding purge_all is_expired
  newest-purge_all [] s h = refl
  newest-purge_all ((p, r) ∷ d) s h =
      newest-purge_all d (delete_tokens (expired p r purged) s) h.1
      ∙ newest-delete now q (expired p r purged)
          (λ row fits gone.
            purged-older purpose p token_max_age r purged now row le h.0 (of_purpose row fits) gone)
          s.tokens

  select-purge_all :
      (age : ℕ) (d : Retentions) (s : Db)
      → Covers purpose age d
      → ((row : GenericTokenModel) → q row ≡ true → is_older age now row.created ≡ false)
      → select q (purge_all false purged d s).1.tokens ≡ select q s.tokens
  unfolding purge_all
  select-purge_all age [] s h young = refl
  select-purge_all age ((p, r) ∷ d) s h young =
      select-purge_all age d (delete_tokens (expired p r purged) s) h.1 young
      ∙ select-delete q (expired p r purged)
          (λ row fits. ground (
            arith,
            young row,
            of_purpose row fits,
            purged-older purpose p age r purged now row le h.0,
          ))
          s.tokens

newest_live-live :
    (now : ℕ) (q : GenericTokenModel → Bool) (s : Db)
    → (newest_live now q s).0 ≡ live now (latest (select q s.tokens))
unfolding newest_live live
newest_live-live now q s = ground arith

users-purge_all :
    (dry_run : Bool) (now : ℕ) (d : Retentions) (s : Db)
    → (purge_all dry_run now d s).1.users ≡ s.users
unfolding purge_all
users-purge_all true now [] s = refl
users-purge_all false now [] s = refl
users-purge_all true now ((p, r) ∷ d) s = users-purge_all true now d s
users-purge_all false now ((p, r) ∷ d) s =
    users-purge_all false now d (delete_tokens (expired p r now) s)

owner_in : List User → Option GenericTokenModel → Option User
owner_in users none = none
owner_in users (some row) = first (λ (u : User). u.id == row.user) users

setup_user :
    (now challenge : ℕ) (s : Db)
    → (get_setup_challenge_user now challenge s).0
      ≡ owner_in s.users (newest_live now (is_token challenge setup_challenge) s).0
unfolding get_setup_challenge_user newest_live owner_in
setup_user now challenge s = ground arith

-- A purge changes no outcome of the second factor, at its instant or at a later one, unless the
-- setting shortens a retention below the life of its tokens: the challenges name the users that they
-- named, a setup secret is the one it was, and the remaining lockout of a user is the same.
pub purge_changes_no_outcome :
    (cfg : Settings) (v : Vault) (purged now challenge user : ℕ) (s : Db)
    → purged ≤ now
    → Covers login_challenge token_max_age (retentions cfg)
    → Covers setup_challenge token_max_age (retentions cfg)
    → Covers setup_secret token_max_age (retentions cfg)
    → Covers login_attempt (attempt_max_age cfg) (retentions cfg)
    → let s' = (purge cfg false purged s).1 in
      ((get_login_challenge_user now challenge s').0 ≡ (get_login_challenge_user now challenge s).0)
      × ((get_setup_challenge_user now challenge s').0
          ≡ (get_setup_challenge_user now challenge s).0)
      × ((load_setup_secret v now user s').0 ≡ (load_setup_secret v now user s).0)
      × (login_lockout_remaining cfg now user s' ≡ login_lockout_remaining cfg now user s)
unfolding purge get_login_challenge_user load_setup_secret login_lockout_remaining
purge_changes_no_outcome cfg v purged now challenge user s le login setup secret attempt = (
  ap (λ (m : Option GenericTokenModel). elim m [ none ↦ none | some row ↦ some row.user ])
      (same login_challenge (is_token challenge login_challenge) (λ row fits. ground arith) login),
  setup_user now challenge _
      ∙ ap (owner_in (purge_all false purged (retentions cfg) s).1.users) (
          same setup_challenge (is_token challenge setup_challenge) (λ row fits. ground arith)
            setup)
      ∙ ap (λ users. owner_in users (newest_live now (is_token challenge setup_challenge) s).0)
          (users-purge_all false purged (retentions cfg) s)
      ∙ sym (setup_user now challenge s),
  ap
      (λ (m : Option GenericTokenModel). elim m [
        | none ↦ none
        | some row ↦ some (decrypt_secret v row.token)
      ])
      (same setup_secret (is_of user setup_secret) (λ row fits. ground arith) secret),
  rw
      (select-purge_all login_attempt purged now le (is_recent_attempt cfg now user)
        (λ row fits. ground arith) (attempt_max_age cfg) (retentions cfg) s attempt
        (λ row fits. ground arith))
      refl,
)
  where
    same :
        (purpose : Purpose) (q : GenericTokenModel → Bool)
        → ((row : GenericTokenModel) → q row ≡ true → same_purpose row.purpose purpose ≡ true)
        → Covers purpose token_max_age (retentions cfg)
        → (newest_live now q (purge_all false purged (retentions cfg) s).1).0
          ≡ (newest_live now q s).0
    same purpose q of_purpose covers =
        newest_live-live now q _
        ∙ newest-purge_all purpose purged now le q of_purpose (retentions cfg) s covers
        ∙ sym (newest_live-live now q s)
