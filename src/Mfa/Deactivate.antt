-- ===== src/Mfa/Deactivate.antt =====
-- `MFADeactivateView.post` and `MFAListAuthenticatorsView.get` of jwt_allauth/mfa/views.py, for the
-- user that the access token names. Whether a password is right is the argument `check_password`.
use jwt_allauth.Base.{
  ℕ, ◌+◌, ◌≡◌, ◌⊎◌, inl, inr, Bool, true, false, not, some, ◌==◌, arith, if◌then◌else◌, ok, Exec,
  pure, or_raise, ◌>>=◌, delete, exists, exists-delete_self, ◌||◌, first, count, Bool-cases,
  Option-cases,
}
use jwt_allauth.Db.{User, Db}
use jwt_allauth.Failure.{Failure, invalid_token}
use jwt_allauth.Mfa.Enrol.{owned_by}
use jwt_allauth.Mfa.Gate.{is_disabled, is_required, has_totp, second_factor_pending}
use jwt_allauth.Session.{has_id}
use jwt_allauth.Settings.{Settings, totp_optional}

pub data Answer : Type 0 where
  off required not_installed bad_password not_active success : Answer

-- `load_user` of jwt_allauth/utils.py
unfoldable pub load_user : ℕ → Exec Db Failure User
load_user caller s = or_raise (first (has_id caller) s.users) invalid_token s

unfoldable pub remove_authenticators : ℕ → Exec Db Failure ℕ
remove_authenticators user s = (
  ok (count (owned_by user) s.totp + count (owned_by user) s.recovery),
  record s { totp = delete (owned_by user) s.totp; recovery = delete (owned_by user) s.recovery },
)

unfoldable pub deactivate : Settings → Bool → (User → ℕ → Bool) → ℕ → ℕ → Exec Db Failure Answer
unfolding load_user remove_authenticators
deactivate cfg available check_password caller password = do
  user ← load_user caller
  if is_disabled cfg.totp_mode
      then pure off
      else if is_required cfg.totp_mode
      then pure required
      else if not available
      then pure not_installed
      else if not (check_password user password)
      then pure bad_password
      else do
        deleted ← remove_authenticators user.id
        pure (if deleted == 0 then not_active else success)

-- The types of the authenticators of the caller, or why they are not listed.
pub data Listing : Type 0 where
  listing_off listing_not_installed : Listing
  of_types : Bool → Bool → Listing

unfoldable pub list_authenticators : Settings → Bool → ℕ → Db → Listing
list_authenticators cfg available caller s =
    if is_disabled cfg.totp_mode
    then listing_off
    else if not available
    then listing_not_installed
    else of_types (exists (owned_by caller) s.totp) (exists (owned_by caller) s.recovery)

module _ (cfg : Settings) (available : Bool) (check_password : User → ℕ → Bool) where
  -- A second factor is taken down by the password of its owner, where none is required: a
  -- deactivation changes nothing, whatever it answers, or the second factor is optional, the password
  -- is right, the authenticators and the recovery codes of the caller are gone and the rest is as it
  -- was, and the login of the caller does not ask for a second factor any more.
  pub deactivation_needs_password :
      (caller password : ℕ) (s : Db)
      → let s' = (deactivate cfg available check_password caller password s).1 in
        (s' ≡ s)
        ⊎ ((user : User) × (first (has_id caller) s.users ≡ some user)
            × (cfg.totp_mode ≡ totp_optional)
            × (check_password user password ≡ true)
            × (s' ≡ record s {
              totp = delete (owned_by user.id) s.totp;
              recovery = delete (owned_by user.id) s.recovery;
            })
            × (second_factor_pending cfg available s' user.id ≡ false))
  unfolding deactivate second_factor_pending has_totp
  deactivation_needs_password caller password s =
      elim (Option-cases (first (has_id caller) s.users)) [
        | inl gone ↦ inl (ground arith)
        | inr (user, found) ↦
            elim (Bool-cases (
              is_disabled cfg.totp_mode
              || is_required cfg.totp_mode
              || not available
              || not (check_password user password))) [
                | inl refused ↦ inl (ground arith)
                | inr passed ↦ inr (
                  user,
                  found,
                  ground arith,
                  ground arith,
                  ground arith,
                  ground (arith, exists-delete_self (owned_by user.id) s.totp),
                )
              ]
      ]
