-- ===== src/Mfa/Enrol/Quiet.antt =====
-- What an enrolment leaves alone before it opens a session (`MFAActivateView.post`): the users, their
-- addresses and the sessions.
use jwt_allauth.Base.{
  ℕ, ◌≡◌, refl, ◌∙◌, sym, subst, inl, inr, Option, none, some, List, ==→eq, arith, Option-cases, ok,
  first, first-holds,
}
use jwt_allauth.Generic.{is_token}
use jwt_allauth.Db.{setup_challenge, User, Db}
use jwt_allauth.Mfa.Storage.{Vault, get_setup_challenge_user, newest_live, load_setup_secret}
use jwt_allauth.Session.{has_id}
use jwt_allauth.Token.{is_email_verified}
use jwt_allauth.Mfa.Enrol.{Authenticators, EnrolRequest, has_permission, enrolled_user, settle}

pub verified_of_emails :
    (user : ℕ) (s s' : Db)
    → s'.emails ≡ s.emails
    → is_email_verified s' user ≡ is_email_verified s user
unfolding is_email_verified
verified_of_emails user s s' same = rw same refl

-- The users, their addresses and the sessions are as they were.
pub record Quiet (s s' : Db) : Type 0 where
  pub users : s'.users ≡ s.users
  pub emails : s'.emails ≡ s.emails
  pub whitelist : s'.whitelist ≡ s.whitelist

pub Quiet-trans : (s t u : Db) → Quiet s t → Quiet t u → Quiet s u
Quiet-trans s t u a b = record {
  users = b.users ∙ a.users;
  emails = b.emails ∙ a.emails;
  whitelist = b.whitelist ∙ a.whitelist;
}

pub permission-Quiet : (now : ℕ) (r : EnrolRequest) (s : Db) → Quiet s (has_permission now r s).1
unfolding has_permission get_setup_challenge_user newest_live
permission-Quiet now r s = record {
  users = ground arith;
  emails = ground arith;
  whitelist = ground arith;
}

pub load_secret-Quiet :
    (v : Vault) (now user : ℕ) (s : Db) → Quiet s (load_setup_secret v now user s).1
unfolding load_setup_secret newest_live
load_secret-Quiet v now user s = record {
  users = ground arith;
  emails = ground arith;
  whitelist = ground arith;
}

pub settle-Quiet :
    (x : Authenticators) (challenge : Option ℕ) (user : User) (owners : List ℕ) (s : Db)
    → Quiet s (settle x challenge user (record s { totp = owners }))
unfolding settle
settle-Quiet x none user owners s = record { users = refl; emails = refl; whitelist = refl }
settle-Quiet x (some challenge) user owners s = record {
  users = refl;
  emails = refl;
  whitelist = refl;
}

found_id :
    (id : ℕ) (users : List User) (user : User)
    → first (has_id id) users ≡ some user
    → first (has_id user.id) users ≡ some user
found_id id users user found =
    subst (λ n. first (has_id n) users ≡ some user)
      (sym (==→eq user.id id (first-holds (has_id id) users found))) found

owner-there :
    (now challenge : ℕ) (s : Db) (user : User)
    → (get_setup_challenge_user now challenge s).0 ≡ some user
    → first (has_id user.id) s.users ≡ some user
unfolding get_setup_challenge_user newest_live
owner-there now challenge s user h =
    elim (Option-cases (newest_live now (is_token challenge setup_challenge) s).0) [
      | inl nothing ↦ absurd (ground arith)
      | inr (row, live) ↦ found_id row.user s.users user (ground arith)
    ]

-- The user that is enrolled has a row.
pub enrolled-there :
    (now : ℕ) (r : EnrolRequest) (s : Db) (user : User)
    → let ((permitted, setup_user), s') = has_permission now r s in
      (enrolled_user r setup_user s').0 ≡ ok user → first (has_id user.id) s.users ≡ some user
unfolding has_permission enrolled_user
enrolled-there now r s user h = elim (Option-cases r.caller) [
  | inr (id, named) ↦ found_id id s.users user (ground arith)
  | inl nobody ↦ elim (Option-cases r.setup_challenge_id) [
    | inl nothing ↦ absurd (ground arith)
    | inr (challenge, given) ↦ owner-there now challenge s user (ground arith)
  ]
]
