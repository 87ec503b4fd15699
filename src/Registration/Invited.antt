-- ===== src/Registration/Invited.antt =====
-- Inviting somebody (`UserRegisterSerializer` and `UserRegisterView` of jwt_allauth/registration). The
-- forms' checks of names have passed. allauth makes the key of the link, and `digest` is its digest.

use jwt_allauth.Base.{
  ℕ, ◌≡◌, Bool, true, false, not, ◌&&◌, Option, none, some, ◌==◌, is_some, if◌then◌else◌, Result,
  ok, err, Exec, pure, lift, atomic, ◌>>=◌, ◌>>◌, first,
}
use jwt_allauth.Confirmation.Mail.{send_confirmation_mail}
use jwt_allauth.Db.{User, EmailAddress, Db, stored}
use jwt_allauth.Failure.{Failure, validation_error}
use jwt_allauth.Registration.{Adapter, invitation_endpoint, validate_email, claim_email}
use jwt_allauth.Session.{has_id}
use jwt_allauth.Settings.{Settings, invitations_enabled}

-- What the request asks for, and what allauth makes for the link.
pub record Invitation : Type 0 where
  pub email : ℕ
  pub role : Option ℕ
  pub key : ℕ
  pub digest : ℕ

-- `validate`: a user model that stores a role needs one.
unfoldable pub validate : Bool → Invitation → Result Failure (Unit {0})
validate accepts_role i =
    if accepts_role && not (is_some i.role) then err validation_error else ok tt

abbrev with_role : Bool → Option ℕ → User → User
with_role accepts_role none user = user
with_role accepts_role (some code) user =
    if accepts_role then record user { role = stored code } else user

-- `custom_signup`
unfoldable pub custom_signup : Bool → Option ℕ → User → User
custom_signup accepts_role role user = record (with_role accepts_role role user) {
  usable_password = false;
}

-- `EmailAddress.objects.get_primary(user)`
abbrev pub is_primary : ℕ → EmailAddress → Bool
is_primary user e = e.user == user && e.primary

-- The account, and the mail to its primary address.
unfoldable pub invite_account : Settings → Adapter → ℕ → Bool → Invitation → Db → User × Db
unfolding custom_signup
invite_account cfg a now accepts_role i s =
    let (user, s') = a.save_user (custom_signup accepts_role i.role) i.email s in
    (
      user,
      elim (first (is_primary user.id) s'.emails) [
        | none ↦ s'
        | some address ↦
            (send_confirmation_mail cfg now i.key i.digest address.email user true s').1
      ],
    )

abbrev pub make_invited :
    Settings → Adapter → ℕ → Bool → Invitation → Bool → Exec Db Failure (Option User)
make_invited cfg a now accepts_role i claimed s =
    let (user, s') = invite_account cfg a now accepts_role i s in
    if not claimed then (ok none, s) else (ok (some user), s')

-- `save`, a transaction
unfoldable pub save_invited :
    Settings → Adapter → ℕ → Bool → Invitation → Bool → Exec Db Failure (Option User)
save_invited cfg a now accepts_role i account_already_exists = atomic (do
  claimed ← claim_email cfg invitation_endpoint now i.email account_already_exists
  make_invited cfg a now accepts_role i claimed)

pub data InviteResponse : Type 0 where
  invite_not_found invited : InviteResponse

-- `UserRegisterView.dispatch` and `create`, behind its permission
unfoldable pub invite : Settings → Adapter → ℕ → Bool → Invitation → Exec Db Failure InviteResponse
unfolding validate validate_email
invite cfg a now accepts_role i =
    if not (invitations_enabled cfg) then pure invite_not_found else (do
      taken ← λ s. (validate_email cfg invitation_endpoint now i.email s, s)
      lift (validate accepts_role i)
      user ← save_invited cfg a now accepts_role i taken
      pure invited)

-- What allauth does for a new account: its row is what the hook returned, with the address as its
-- primary one.
pub record AdapterLaws (a : Adapter) : Type 0 where
  pub hooked :
      (hook : User → User) (email : ℕ) (s : Db)
      → (fresh : User) × ((a.save_user hook email s).0 ≡ hook fresh)
  pub saved :
      (hook : User → User) (email : ℕ) (s : Db)
      → let (user, s') = a.save_user hook email s in first (has_id user.id) s'.users ≡ some user
  pub addressed :
      (hook : User → User) (email : ℕ) (s : Db)
      → let (user, s') = a.save_user hook email s in
        (e : EmailAddress) × (first (is_primary user.id) s'.emails ≡ some e) × (e.email ≡ email)
