-- ===== src/Accounts.antt =====
-- Whose an address is (jwt_allauth/accounts.py). Addresses are stored in lower case, and the
-- argument of a lookup is the number of the folded address.
pub mod Verdicts
use jwt_allauth.Base.{
  ℕ, ◌+◌, ◌*◌, Bool, true, false, not, ◌&&◌, ◌||◌, Option, none, some, List, [], ◌∷◌, leb, ◌==◌,
  is_some, if◌then◌else◌, select, exists, first, delete,
}
use jwt_allauth.Db.{GenericTokenModel, User, EmailAddress, Db, day, invitation}
use jwt_allauth.Generic.{is_of}
use jwt_allauth.Session.{has_id}
use jwt_allauth.Settings.{Settings}

-- `_has_open_invitation`
unfoldable pub has_open_invitation : Settings → ℕ → Db → User → Bool
has_open_invitation cfg now s user =
    if user.usable_password
    then false
    else exists
        (λ row.
          is_of user.id invitation row
          && leb now (row.created + cfg.allauth_confirmation_expire_days * day))
        s.tokens

unfoldable pub mailbox_control_proven : Settings → ℕ → Db → Bool → Option User → Bool
unfolding has_open_invitation
mailbox_control_proven cfg now s reserve_invitations none = false
mailbox_control_proven cfg now s reserve_invitations (some user) =
    if user.is_staff || user.is_superuser
    then true
    else if exists (λ e. e.user == user.id && e.verified) s.emails
    then true
    else reserve_invitations && has_open_invitation cfg now s user

unfoldable pub account_is_claimed : Settings → ℕ → Db → Bool → Option User → Bool
unfolding mailbox_control_proven
account_is_claimed cfg now s reserve_invitations none = true
account_is_claimed cfg now s reserve_invitations (some user) =
    if is_some user.last_login
    then true
    else mailbox_control_proven cfg now s reserve_invitations (some user)

-- The addresses of a lookup, each with its user, whose row the foreign key keeps there.
unfoldable pub join_users : List User → List EmailAddress → List (EmailAddress × User)
join_users users [] = []
join_users users (e ∷ es) = elim (first (has_id e.user) users) [
  | none ↦ join_users users es
  | some user ↦ (e, user) ∷ join_users users es
]

unfoldable pub holders : ℕ → Db → List (EmailAddress × User)
unfolding join_users
holders email s = join_users s.users (select (λ e. e.email == email) s.emails)

-- The loop of `resolve_email`. A user model row is never `None` there.
unfoldable pub resolve :
    Settings → ℕ → Db → Bool → List (EmailAddress × User) → Option User × List User
unfolding account_is_claimed
resolve cfg now s reserve_invitations [] = (none, [])
resolve cfg now s reserve_invitations ((address, user) ∷ rest) =
    let (owner, accounts) = resolve cfg now s reserve_invitations rest in
    if address.verified || account_is_claimed cfg now s reserve_invitations (some user)
    then (some user, [])
    else elim owner [ some other ↦ (some other, []) | none ↦ (none, user ∷ accounts) ]

unfoldable pub resolve_email : Settings → ℕ → ℕ → Bool → Db → Option User × List User
unfolding holders resolve
resolve_email cfg now email reserve_invitations s =
    resolve cfg now s reserve_invitations (holders email s)

-- The loop of `resolve_email_for_provider`.
unfoldable pub resolve_provider :
    Settings → ℕ → Db → List (EmailAddress × User) → Option User × List User × List User
unfolding mailbox_control_proven
resolve_provider cfg now s [] = (none, [], [])
resolve_provider cfg now s ((address, user) ∷ rest) =
    let (owner, occupied, abandoned) = resolve_provider cfg now s rest in
    if address.verified || mailbox_control_proven cfg now s true (some user)
    then (some user, [], [])
    else elim owner [
      | some other ↦ (some other, [], [])
      | none ↦
          if is_some user.last_login
          then (none, user ∷ occupied, abandoned)
          else (none, occupied, user ∷ abandoned)
    ]

unfoldable pub resolve_email_for_provider :
    Settings → ℕ → ℕ → Db → Option User × List User × List User
unfolding holders resolve_provider
resolve_email_for_provider cfg now email s = resolve_provider cfg now s (holders email s)

unfoldable pub superseded_accounts : Settings → ℕ → ℕ → Bool → Db → Option (List User)
unfolding resolve_email
superseded_accounts cfg now email reserve_invitations s =
    let (owner, superseded) = resolve_email cfg now email reserve_invitations s in
    if is_some owner then none else some superseded

-- `user.delete()`: the foreign keys cascade.
unfoldable pub delete_user : ℕ → Db → Db
delete_user id s = record s {
  users = delete (λ (u : User). u.id == id) s.users;
  whitelist = delete (λ row. row.user == id) s.whitelist;
  tokens = delete (λ row. row.user == id) s.tokens;
  emails = delete (λ e. e.user == id) s.emails;
  totp = delete (λ owner. owner == id) s.totp;
  recovery = delete (λ owner. owner == id) s.recovery;
  social = delete (λ a. a.user == id) s.social;
}

-- `for user in superseded: user.delete()`
unfoldable pub delete_users : List User → Db → Db
unfolding delete_user
delete_users [] s = s
delete_users (user ∷ users) s = delete_users users (delete_user user.id s)
