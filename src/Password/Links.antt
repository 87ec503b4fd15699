-- ===== src/Password/Links.antt =====
-- Asking for a reset link (`PasswordResetSerializer` and `PasswordResetView` of
-- jwt_allauth/password_reset), and what a link leads to. Django's PasswordResetForm is a parameter.
use jwt_allauth.Base.{
  ℕ, ◌≡◌, ◌≢◌, refl, Bool, true, false, not, ◌&&◌, List, [], ◌∷◌, some, arith, ◌==◌, if◌then◌else◌,
  Exec, pure, raise_if, modify, ◌>>◌, All, exists, first,
}
use jwt_allauth.Db.{User, Db, pass_reset, pass_reset_access}
use jwt_allauth.Failure.{Failure, validation_error, too_many_resets}
use jwt_allauth.Generic.{make_token, check_token}
use jwt_allauth.Generic.SingleUse.{latest_link_only}
use jwt_allauth.Password.{link_invalid, capability, capability_token, confirm_reset}
use jwt_allauth.Password.Accepted.{LetsIn, capability_token-LetsIn}
use jwt_allauth.Settings.{Settings}
use jwt_allauth.Session.{has_id}
use jwt_allauth.Token.{Jwt, JwtLaws, Request}

-- Django's form: the accounts that it finds for an address, and its `save`, which takes the
-- `make_token` of a token generator.
pub record ResetForm : Type 0 where
  pub get_users : ℕ → Db → List ℕ
  pub save : ℕ → (ℕ → Db → Db) → Db → Db

abbrev pub make_each : (ℕ → Db → Db) → List ℕ → Db → Db
make_each generator [] s = s
make_each generator (user ∷ users) s = make_each generator users (generator user s)

-- What Django documents of it: one link for each account that it finds, the mail aside.
pub record ResetFormLaws (form : ResetForm) : Type 0 where
  pub save_each :
      (email : ℕ) (generator : ℕ → Db → Db) (s : Db)
      → form.save email generator s ≡ make_each generator (form.get_users email s) s

-- `PasswordResetSerializer.save`: `digest` is the digest of the link that Django makes for a user.
unfoldable pub save_reset : ResetForm → ℕ → (ℕ → ℕ) → ℕ → Db → Db
save_reset form now digest email s =
    if exists (λ e. e.email == email && e.verified) s.emails
    then form.save email (λ user. make_token now user (digest user) pass_reset) s
    else s

pub data ResetAnswer : Type 0 where
  reset_mail_sent : ResetAnswer

-- `PasswordResetView.post`: `valid` is what the serializer says of the data, and `within_limit`
-- what allauth's rate limit says of the address.
unfoldable pub request_reset :
    ResetForm → ℕ → (ℕ → ℕ) → Bool → Bool → ℕ → Exec Db Failure ResetAnswer
request_reset form now digest valid within_limit email = do
  raise_if (not valid) validation_error
  raise_if (not within_limit) too_many_resets
  modify (save_reset form now digest email)
  pure reset_mail_sent

-- The answer to a request does not depend on what is stored.
answer-blind :
    (form : ResetForm) (now : ℕ) (digest : ℕ → ℕ) (valid within_limit : Bool) (email : ℕ)
    (s s' : Db)
    → (request_reset form now digest valid within_limit email s).0
      ≡ (request_reset form now digest valid within_limit email s').0
unfolding request_reset
answer-blind form now digest false within_limit email s s' = refl
answer-blind form now digest true false email s s' = refl
answer-blind form now digest true true email s s' = refl

-- For an active account, a link leads to a capability exactly if its check claims it.
module _ (cfg : Settings) (j : Jwt) (req : Request) (token : ℕ) (user : User) (signed : User → Bool)
    (s : Db) (found : first (has_id user.id) s.users ≡ some user)
    (active : user.is_active ≡ true) where
  page-claimed :
      (check_token (signed user) token pass_reset s).0 ≡ true
      → (confirm_reset cfg j req (some user.id) signed token s).0
        ≡ capability (capability_token cfg j req user pass_reset_access)
  unfolding confirm_reset
  page-claimed claimed = ground arith

  page-unclaimed :
      (check_token (signed user) token pass_reset s).0 ≡ false
      → (confirm_reset cfg j req (some user.id) signed token s).0 ≡ link_invalid
  unfolding confirm_reset
  page-unclaimed unclaimed = ground arith

one-link :
    (form : ResetForm) (laws : ResetFormLaws form) (now : ℕ) (digest : ℕ → ℕ) (email user : ℕ)
    (s : Db)
    → exists (λ e. e.email == email && e.verified) s.emails ≡ true
    → form.get_users email s ≡ user ∷ []
    → (request_reset form now digest true true email s).1
      ≡ make_token now user (digest user) pass_reset s
unfolding request_reset save_reset
one-link form laws now digest email user s verified its =
    rw (verified, laws.save_each email _ s, its) refl

-- A request of a reset that passes the serializer and the limit, for an address that is stored as
-- verified and for which Django finds one account, active, whose stored rows with an earlier digest
-- are its own: the new link leads to a cookie that the permission of the reset lets in as the
-- capability of that account, if Django finds the link well signed, an
-- earlier link with another digest does not even then, and the answer is the same as over any other
-- database.
pub reset_link_replaces :
    (cfg : Settings) (j : Jwt) (jwt_laws : JwtLaws j) (form : ResetForm) (laws : ResetFormLaws form)
    (now : ℕ) (later : Request) (digest : ℕ → ℕ) (old email : ℕ) (user : User)
    (signed : User → Bool) (s other : Db)
    → first (has_id user.id) s.users ≡ some user
    → user.is_active ≡ true
    → signed user ≡ true
    → exists (λ e. e.email == email && e.verified) s.emails ≡ true
    → form.get_users email s ≡ user.id ∷ []
    → digest user.id ≢ old
    → All (λ row. row.token ≡ old → row.user ≡ user.id) s.tokens
    → let (answer, s') = request_reset form now digest true true email s in
      let token = capability_token cfg j later user pass_reset_access in
      ((confirm_reset cfg j later (some user.id) signed (digest user.id) s').0 ≡ capability token)
      × LetsIn cfg user pass_reset_access token
      × ((confirm_reset cfg j later (some user.id) signed old s').0 ≡ link_invalid)
      × (answer ≡ (request_reset form now digest true true email other).0)
reset_link_replaces cfg j jwt_laws form laws now later digest old email user signed s other found
      active well_signed verified its ne its_own =
    let linked = make_token now user.id (digest user.id) pass_reset s in
    let (earlier, newest) =
      latest_link_only now user.id (digest user.id) old pass_reset s ne its_own in
    let there : first (has_id user.id) linked.users ≡ some user = unfold make_token in found in
    rw (one-link form laws now digest email user.id s verified its) (
      page-claimed cfg j later (digest user.id) user signed linked there active
          (rw well_signed newest),
      capability_token-LetsIn cfg j jwt_laws later user pass_reset_access,
      page-unclaimed cfg j later old user signed linked there active (rw well_signed earlier),
      answer-blind form now digest true true email s other,
    )
