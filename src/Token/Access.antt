-- ===== src/Token/Access.antt =====
-- The claims that an access token has of its refresh token, whatever caps it.
use jwt_allauth.Base.{ℕ, ◌≡◌, refl, inl, inr, Option-cases}
use jwt_allauth.Settings.{Settings}
use jwt_allauth.Token.{Payload, Jwt, access_token, session_deadline}

pub access_token-names :
    (cfg : Settings) (j : Jwt) (now : ℕ) (p : Payload)
    → ((access_token cfg j now p).user_id ≡ (j.derive_access now p).user_id)
      × ((access_token cfg j now p).session ≡ (j.derive_access now p).session)
unfolding access_token
access_token-names cfg j now p = elim (Option-cases (session_deadline cfg j p)) [
  | inl endless ↦ (rw (access_token, endless) refl, rw (access_token, endless) refl)
  | inr (deadline, ends) ↦ (rw (access_token, ends) refl, rw (access_token, ends) refl)
]

pub access_token-keeps :
    (cfg : Settings) (j : Jwt) (now : ℕ) (p : Payload)
    → ((access_token cfg j now p).for_user ≡ (j.derive_access now p).for_user)
      × ((access_token cfg j now p).one_time_permission
          ≡ (j.derive_access now p).one_time_permission)
unfolding access_token
access_token-keeps cfg j now p = elim (Option-cases (session_deadline cfg j p)) [
  | inl endless ↦ (rw (access_token, endless) refl, rw (access_token, endless) refl)
  | inr (deadline, ends) ↦ (rw (access_token, ends) refl, rw (access_token, ends) refl)
]
