-- ===== src/Mfa/Storage.antt =====
-- Challenges and setup secrets of jwt_allauth/mfa/storage.py, rows of GenericTokenModel.
-- The cipher is the parameter `Vault`.
use jwt_allauth.Base.{
  ℕ, ◌+◌, ◌*◌, Bool, ◌&&◌, Option, none, some, List, [], ◌∷◌, ltb, ◌==◌, if◌then◌else◌, select,
  first,
}
use jwt_allauth.Db.{
  GenericTokenModel, User, Db, Purpose, setup_challenge, login_challenge, setup_secret, second,
}
use jwt_allauth.Generic.{is_token, is_of, create_token, delete_tokens}

-- MFA_TOKEN_MAX_AGE_SECONDS
abbrev pub token_max_age : ℕ
token_max_age = 300 * second

-- `created < now - timedelta(...)`
abbrev pub is_older : ℕ → ℕ → ℕ → Bool
is_older age now created = ltb (created + age) now

unfoldable pub is_expired : ℕ → ℕ → Bool
is_expired now created = is_older token_max_age now created

-- `_purge_expired`
unfoldable pub purge_expired : ℕ → ℕ → Purpose → Db → Db
unfolding is_expired
purge_expired now user purpose =
    delete_tokens (λ row. is_of user purpose row && is_expired now row.created)

-- `.latest("created")`; of rows of one instant, the one that was written last
abbrev pub later : GenericTokenModel → Option GenericTokenModel → GenericTokenModel
later row none = row
later row (some other) = if ltb other.created row.created then row else other

unfoldable pub latest : List GenericTokenModel → Option GenericTokenModel
latest [] = none
latest (row ∷ rows) = some (later row (latest rows))

abbrev pub has_token_pk : ℕ → GenericTokenModel → Bool
has_token_pk pk row = row.pk == pk

-- `create_setup_challenge` and `create_login_challenge`, less the purge of old attempts, which the
-- latter makes first; `fresh` is what `uuid4` gives.
unfoldable pub create_challenge : ℕ → ℕ → ℕ → Purpose → Db → Db
unfolding purge_expired
create_challenge now fresh user purpose s =
    create_token now user fresh purpose (purge_expired now user purpose s)

abbrev pub create_setup_challenge : ℕ → ℕ → ℕ → Db → Db
create_setup_challenge now fresh user = create_challenge now fresh user setup_challenge

-- The lookup that the challenges and the secret share: the newest row, if it has not expired; an
-- expired one is deleted on the way.
unfoldable pub newest_live : ℕ → (GenericTokenModel → Bool) → Db → Option GenericTokenModel × Db
unfolding latest is_expired
newest_live now q s = elim (latest (select q s.tokens)) [
  | none ↦ (none, s)
  | some row ↦
      if is_expired now row.created
      then (none, delete_tokens (has_token_pk row.pk) s)
      else (some row, s)
]

-- `get_setup_challenge_user`
unfoldable pub get_setup_challenge_user : ℕ → ℕ → Db → Option User × Db
unfolding newest_live
get_setup_challenge_user now challenge s =
    let (found, s') = newest_live now (is_token challenge setup_challenge) s in
    elim found [
      | none ↦ (none, s')
      | some row ↦ elim (first (λ (u : User). u.id == row.user) s'.users) [
        | none ↦ (none, delete_tokens (has_token_pk row.pk) s')
        | some user ↦ (some user, s')
      ]
    ]

-- `get_login_challenge_user`: the id of the owner, whose row the foreign key keeps there
unfoldable pub get_login_challenge_user : ℕ → ℕ → Db → Option ℕ × Db
unfolding newest_live
get_login_challenge_user now challenge s =
    let (found, s') = newest_live now (is_token challenge login_challenge) s in
    (elim found [ none ↦ none | some row ↦ some row.user ], s')

abbrev pub delete_setup_challenge : ℕ → Db → Db
delete_setup_challenge challenge = delete_tokens (is_token challenge setup_challenge)

abbrev pub delete_login_challenge : ℕ → Db → Db
delete_login_challenge challenge = delete_tokens (is_token challenge login_challenge)

abbrev pub delete_user_login_challenges : ℕ → Db → Db
delete_user_login_challenges user = delete_tokens (is_of user login_challenge)

abbrev pub delete_setup_secret : ℕ → Db → Db
delete_setup_secret user = delete_tokens (is_of user setup_secret)

-- `signing.dumps` and `signing.loads` with the secret key, the `encrypt` and `decrypt` of allauth's
-- MFA adapter, where none means that it raises or is not installed, and the test for the prefix
-- of a Fernet token.
pub record Vault : Type 0 where
  pub sign : ℕ → ℕ
  pub unsign : ℕ → Option ℕ
  pub adapter_encrypt : ℕ → Option ℕ
  pub adapter_decrypt : ℕ → Option ℕ
  pub is_fernet : ℕ → Bool
  pub empty_text : ℕ

abbrev or_itself : Option ℕ → ℕ → ℕ
or_itself none text = text
or_itself (some result) text = result

-- `_allauth_encrypt` and `_allauth_decrypt`
unfoldable pub allauth_encrypt : Vault → ℕ → ℕ
allauth_encrypt v text = or_itself (v.adapter_encrypt text) text

unfoldable pub allauth_decrypt : Vault → ℕ → ℕ
allauth_decrypt v text = or_itself (v.adapter_decrypt text) text

unfoldable pub encrypt_secret : Vault → ℕ → ℕ
unfolding allauth_encrypt
encrypt_secret v plaintext = allauth_encrypt v (v.sign plaintext)

unfoldable pub decrypt_secret : Vault → ℕ → ℕ
unfolding allauth_decrypt
decrypt_secret v stored =
    let stored' = allauth_decrypt v stored in
    elim (v.unsign stored') [
      | some plaintext ↦ plaintext
      | none ↦ if v.is_fernet stored' then v.empty_text else stored'
    ]

unfoldable pub store_setup_secret : Vault → ℕ → ℕ → ℕ → Db → Db
store_setup_secret v now user secret s =
    create_token now user (encrypt_secret v secret) setup_secret (delete_setup_secret user s)

unfoldable pub load_setup_secret : Vault → ℕ → ℕ → Db → Option ℕ × Db
unfolding newest_live
load_setup_secret v now user s =
    let (found, s') = newest_live now (is_of user setup_secret) s in
    (elim found [ none ↦ none | some row ↦ some (decrypt_secret v row.token) ], s')
