-- ===== src/Confirmation/Mail.antt =====
-- The mails of `JWTAllAuthAdapter` of jwt_allauth/adapter.py: which template goes to which address, and
-- the entry that a confirmation mail leaves. `key` is the key that allauth made, `digest` its digest.
use jwt_allauth.Base.{
  ℕ, ◌+◌, ◌*◌, ◌≤◌, ◌≡◌, ◌⊎◌, ◌∙◌, sym, ap, inl, inr, Bool, true, false, not, ◌&&◌, Option, none,
  some, arith, ==_refl, if◌then◌else◌, Bool-cases, exists, first, first-append,
}
use jwt_allauth.Confirmation.{
  set_password_form, is_live_confirmation, serves_invitation, confirm_key,
  confirm_without_capability, serve_confirmation, claim_invitation,
}
use jwt_allauth.Db.{User, Db, Purpose, day, invitation, email_confirmation, pass_set_access}
use jwt_allauth.Generic.{new_token, create_token}
use jwt_allauth.Session.{has_id}
use jwt_allauth.Settings.{Settings, invitations_enabled, self_registration_enabled}
use jwt_allauth.Password.{capability_token}
use jwt_allauth.Password.Accepted.{LetsIn, capability_token-LetsIn}
use jwt_allauth.Token.{Payload, Jwt, JwtLaws, Request}

pub data MailTemplate : Type 0 where
  admin_invite signup_mail email_confirmation_mail account_exists : MailTemplate

pub record Mail : Type 0 where
  pub template : MailTemplate
  pub recipient : ℕ
  pub confirmation_key : Option ℕ

-- `send_account_already_exists_mail`
unfoldable pub send_account_already_exists_mail : ℕ → Mail
send_account_already_exists_mail email = record {
  template = account_exists;
  recipient = email;
  confirmation_key = none;
}

unfoldable pub template_for : Settings → User → Bool → MailTemplate
template_for cfg user signup =
    if signup
    then (if invitations_enabled cfg && not user.usable_password then admin_invite else signup_mail)
    else email_confirmation_mail

unfoldable pub purpose_for : User → Bool → Purpose
purpose_for user signup =
    if signup && not user.usable_password then invitation else email_confirmation

abbrev pub is_admin_invite : MailTemplate → Bool
is_admin_invite admin_invite = true
is_admin_invite _ = false

-- `send_confirmation_mail`: the mail and the database after it
unfoldable pub send_confirmation_mail : Settings → ℕ → ℕ → ℕ → ℕ → User → Bool → Db → Mail × Db
unfolding template_for purpose_for
send_confirmation_mail cfg now key digest email user signup s = (
  record {
    template = template_for cfg user signup;
    recipient = email;
    confirmation_key = some key;
  },
  if invitations_enabled cfg
      then create_token now user.id digest (purpose_for user signup) s
      else s,
)

module _ (cfg : Settings) (j : Jwt) (laws : JwtLaws j) (now : ℕ) (req : Request)
    (key digest email : ℕ) (confirm : Db → Option Db) (user : User) (signup : Bool) (s : Db) where
  abbrev pub token : Payload
  token = capability_token cfg j req user pass_set_access

  -- The entry that the mail has left is found by its key within allauth's window.
  entry_found :
      invitations_enabled cfg ≡ true
      → exists (is_live_confirmation cfg req.now digest key) s.tokens ≡ false
      → req.now ≤ now + cfg.allauth_confirmation_expire_days * day
      → first
          (is_live_confirmation cfg req.now digest key)
          (send_confirmation_mail cfg now key digest email user signup s).1.tokens
        ≡ some (new_token now s.next_pk user.id digest (purpose_for user signup))
  unfolding send_confirmation_mail purpose_for
  entry_found on fresh in_time = rw on (
      first-append (is_live_confirmation cfg req.now digest key) s.tokens
        (new_token now s.next_pk user.id digest (purpose_for user signup)) fresh
        (elim (Bool-cases (signup && not user.usable_password)) [
          | inl invites ↦ rw invites (ground (arith, ==_refl digest))
          | inr ordinary ↦ rw ordinary (ground (arith, ==_refl digest))
        ]))

  -- What the entry is served as.
  served :
      (s' : Db) (pk : ℕ)
      → user.is_active ≡ true
      → (confirm_key confirm user s').0 ≡ false
      → (self_registration_enabled cfg ≡ true) ⊎ ((signup && not user.usable_password) ≡ true)
      → (serve_confirmation cfg j req confirm
          (new_token now pk user.id digest (purpose_for user signup))
          user
          s').0
        ≡ (if signup && not user.usable_password then some (set_password_form token) else none)
  unfolding serve_confirmation serves_invitation confirm_without_capability purpose_for
  served s' pk active good (inr invites) = ground arith
  served s' pk active good (inl self_service) =
      elim (Bool-cases (signup && not user.usable_password)) [
        | inl invites ↦ ground arith
        | inr ordinary ↦ ground arith
      ]

  mail-users : (send_confirmation_mail cfg now key digest email user signup s).1.users ≡ s.users
  unfolding send_confirmation_mail
  mail-users = ground arith

  invite-template :
      invitations_enabled cfg ≡ true
      → is_admin_invite (send_confirmation_mail cfg now key digest email user signup s).0.template
        ≡ (signup && not user.usable_password)
  unfolding send_confirmation_mail template_for
  invite-template on = ground arith

  -- The mail decides what its link is good for: with invitations on, a confirmation mail for an active
  -- user whose key is new and is followed within allauth's window, and which allauth does not turn
  -- down, leads to the form if it is the invitation mail, with a cookie that the permission of the form lets
  -- in as the capability of this user, and otherwise to the ordinary confirmation. Where registration is closed, this is about invitations.
  pub invitation_mail_is_claimed :
      invitations_enabled cfg ≡ true
      → exists (is_live_confirmation cfg req.now digest key) s.tokens ≡ false
      → req.now ≤ now + cfg.allauth_confirmation_expire_days * day
      → first (has_id user.id) s.users ≡ some user
      → user.is_active ≡ true
      → (self_registration_enabled cfg ≡ true) ⊎ ((signup && not user.usable_password) ≡ true)
      → (confirm_key confirm user
          (send_confirmation_mail cfg now key digest email user signup s).1).0
        ≡ false
      → let (mail, s') = send_confirmation_mail cfg now key digest email user signup s in
        ((claim_invitation cfg j req digest key confirm s').0
          ≡ (if is_admin_invite mail.template then some (set_password_form token) else none))
        × LetsIn cfg user pass_set_access token
  unfolding claim_invitation
  invitation_mail_is_claimed on fresh in_time there active kind good =
      let s' = (send_confirmation_mail cfg now key digest email user signup s).1 in
      let there' : first (has_id user.id) s'.users ≡ some user = rw mail-users there in
      let claimed : (claim_invitation cfg j req digest key confirm s').0
          ≡ (if signup && not user.usable_password then some (set_password_form token) else none) =
        rw (claim_invitation, entry_found on fresh in_time, there')
          (served s' s.next_pk active good kind) in
      (
        claimed
            ∙ sym (
                ap (λ (b : Bool). if b then some (set_password_form token) else none)
                  (invite-template on)),
        capability_token-LetsIn cfg j laws req user pass_set_access,
      )
