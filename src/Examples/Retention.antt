-- ===== src/Examples/Retention.antt =====
-- A purge of a table that holds an old and a new row.
use jwt_allauth.Base.{
  ◌+◌, ◌-◌, ◌*◌, ◌≡◌, if◌then◌else◌, refl, inl, inr, true, false, none, some, arith, first, leb,
}
use jwt_allauth.Db.{second, login_challenge, Db}
use jwt_allauth.Examples.{cfg, row, db}
use jwt_allauth.Generic.{create_token}
use jwt_allauth.Mfa.Attempts.{login_lockout_remaining}
use jwt_allauth.Mfa.Secret.{VaultLaws, stored_secret_returns}
use jwt_allauth.Mfa.Storage.{
  get_login_challenge_user, get_setup_challenge_user, load_setup_secret, store_setup_secret, Vault,
}
use jwt_allauth.Purge.{retentions, built_in, update}
use jwt_allauth.Purge.Command.{handle}
use jwt_allauth.Purge.Unnoticed.{command_changes_no_outcome}
use jwt_allauth.Session.{has_jti, session_is_active}

-- A cipher that adds numbers.
abbrev pub vault : Vault
vault = record {
  sign = λ n. n + 2;
  unsign = λ n. if leb 2 n then some (n - 2) else none;
  adapter_encrypt = λ n. some (n + 1);
  adapter_decrypt = λ n. some (n - 1);
  is_fernet = λ n. false;
  empty_text = 0;
}

pub vault-VaultLaws : VaultLaws vault
vault-VaultLaws = record {
  unsign-sign = λ n. ground arith;
  decrypt-encrypt = λ n stored h. ground arith;
  decrypt-plain = λ n h. absurd (cc);
}

stored_secret_returns_example :
    (load_setup_secret vault (10 * second) 7 (store_setup_secret vault 0 7 42 db)).0 ≡ some 42
stored_secret_returns_example =
    stored_secret_returns vault 0 (10 * second) 7 42 db vault-VaultLaws (omega arith)

-- An old challenge and a new one.
abbrev filled : Db
filled = create_token (1000 * second) 7 61 login_challenge (create_token 0 7 60 login_challenge db)

command_changes_no_outcome_example :
    let s' = (handle cfg false (10 * second) (11 * second) filled).1 in
    ((get_login_challenge_user (11 * second) 61 s').0
      ≡ (get_login_challenge_user (11 * second) 61 filled).0)
    × ((get_setup_challenge_user (11 * second) 61 s').0
        ≡ (get_setup_challenge_user (11 * second) 61 filled).0)
    × ((load_setup_secret vault (11 * second) 7 s').0
        ≡ (load_setup_secret vault (11 * second) 7 filled).0)
    × (login_lockout_remaining cfg (11 * second) 7 s'
        ≡ login_lockout_remaining cfg (11 * second) 7 filled)
    × (first (has_jti 1) s'.whitelist ≡ some row)
    × (session_is_active 10 s' ≡ true)
unfolding retentions built_in update first
command_changes_no_outcome_example =
    command_changes_no_outcome cfg vault (10 * second) (11 * second) (11 * second) 61 7 1 filled row
      (omega arith)
      (
        inl refl,
        (
          inl refl,
          (
            inl refl,
            (
              inl refl,
              (inl refl, (inl refl, (inl refl, (inr (omega arith), (inl refl, (inl refl, tt)))))),
            ),
          ),
        ),
      )
      (
        inl refl,
        (
          inl refl,
          (
            inl refl,
            (
              inl refl,
              (inl refl, (inl refl, (inr (omega arith), (inl refl, (inl refl, (inl refl, tt)))))),
            ),
          ),
        ),
      )
      (
        inl refl,
        (
          inl refl,
          (
            inl refl,
            (
              inl refl,
              (inl refl, (inl refl, (inl refl, (inl refl, (inr (omega arith), (inl refl, tt)))))),
            ),
          ),
        ),
      )
      (
        inl refl,
        (
          inl refl,
          (
            inl refl,
            (
              inl refl,
              (inl refl, (inl refl, (inl refl, (inl refl, (inl refl, (inr (omega arith), tt)))))),
            ),
          ),
        ),
      )
      refl (inl (omega arith))
