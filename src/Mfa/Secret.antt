-- ===== src/Mfa/Secret.antt =====
-- The setup secret comes back as it was stored.
use jwt_allauth.Base.{
  ℕ, ◌+◌, ◌≤◌, ◌≡◌, refl, true, none, some, inl, inr, Option-cases, List, [], ◌∷◌, ◌++◌, arith,
  ==_refl, select, delete, select-append, select-none, exists-delete_self,
}
use jwt_allauth.Db.{GenericTokenModel, Db, setup_secret}
use jwt_allauth.Generic.{is_of, new_token}
use jwt_allauth.Mfa.Storage.{
  token_max_age, is_expired, newest_live, latest, Vault, allauth_encrypt, allauth_decrypt,
  encrypt_secret, decrypt_secret, store_setup_secret, load_setup_secret,
}

-- What the code relies on: a signature is verified, the adapter undoes its own encryption, and it does
-- not decrypt a text where it could not encrypt it (both are missing without allauth's MFA).
pub record VaultLaws (v : Vault) : Type 0 where
  pub unsign-sign : (text : ℕ) → v.unsign (v.sign text) ≡ some text
  pub decrypt-encrypt :
      (text stored : ℕ)
      → v.adapter_encrypt text ≡ some stored
      → v.adapter_decrypt stored ≡ some text
  pub decrypt-plain : (text : ℕ) → v.adapter_encrypt text ≡ none → v.adapter_decrypt text ≡ none

allauth_decrypt-allauth_encrypt :
    (v : Vault) → VaultLaws v → (text : ℕ) → allauth_decrypt v (allauth_encrypt v text) ≡ text
unfolding allauth_decrypt allauth_encrypt
allauth_decrypt-allauth_encrypt v laws text = elim (Option-cases (v.adapter_encrypt text)) [
  | inl fails ↦ rw (fails, laws.decrypt-plain text fails) refl
  | inr (stored, works) ↦ rw (works, laws.decrypt-encrypt text stored works) refl
]

decrypt_secret-encrypt_secret :
    (v : Vault) → VaultLaws v → (secret : ℕ) → decrypt_secret v (encrypt_secret v secret) ≡ secret
unfolding decrypt_secret encrypt_secret
decrypt_secret-encrypt_secret v laws secret =
    ground (arith, allauth_decrypt-allauth_encrypt v laws (v.sign secret), laws.unsign-sign secret)

only_secret :
    (user : ℕ) (rows : List GenericTokenModel) (row : GenericTokenModel)
    → is_of user setup_secret row ≡ true
    → latest (select (is_of user setup_secret) (delete (is_of user setup_secret) rows ++ row ∷ []))
      ≡ some row
unfolding select latest
only_secret user rows row its =
    rw
      (
        select-append,
        select-none (is_of user setup_secret) _ (exists-delete_self (is_of user setup_secret) rows),
        its,
      )
      refl

-- A setup secret that was stored is read back as it was, whatever was stored for the user before,
-- until it expires.
pub stored_secret_returns :
    (v : Vault) (now later user secret : ℕ) (s : Db)
    → VaultLaws v
    → later ≤ now + token_max_age
    → (load_setup_secret v later user (store_setup_secret v now user secret s)).0 ≡ some secret
unfolding load_setup_secret store_setup_secret newest_live is_expired
stored_secret_returns v now later user secret s laws in_time =
    let row = new_token now s.next_pk user (encrypt_secret v secret) setup_secret in
    ground (
      arith,
      only_secret user s.tokens row (ground (arith, ==_refl user)),
      decrypt_secret-encrypt_secret v laws secret,
    )
