-- ===== src/Scaffold/Signing.antt =====
-- What the settings say of signing (`_modify_settings` of jwt_allauth/bin/jwt_allauth.py, from where it
-- tells whether there is a key pair).
use mathlib.Core.List.{append_assoc}
use jwt_allauth.Base.{
  ◌≡◌, refl, sym, ap, ◌∙◌, inl, inr, Bool, true, false, some, [], ◌∷◌, ◌++◌, arith, Option-cases,
  Bool-cases,
}
use jwt_allauth.Scaffold.Text.{Chars, codes, lines, contains, sub_all, list_entry}
use jwt_allauth.Scaffold.Blocks.{auth_backends, rs256_settings, hs256_settings}
use jwt_allauth.Scaffold.Files.{Host}
use jwt_allauth.Scaffold.Project.{
  modify_settings, jwt_apps, add_imports, allauth_middleware, add_migration_modules,
  migration_modules, append_blocks, ◌>=>◌,
}

-- The settings of a pair of keys, as Python reads them.
abbrev pub names_pair : Chars
names_pair =
    codes
      "SIMPLE_JWT = {\n    \"ALGORITHM\": \"RS256\",\n    \"SIGNING_KEY\": (BASE_DIR / \"keys\" / \"private.pem\").read_text(),\n    \"VERIFYING_KEY\": (BASE_DIR / \"keys\" / \"public.pem\").read_text(),\n}\n"

-- The comment in their place where there is no pair.
abbrev pub names_secret : Chars
names_secret = codes "# JWT_ALLAUTH_SECRET_KEY = 'your-dedicated-jwt-secret-here'\n"

abbrev pub Includes : Chars → Chars → Type 0
Includes part t = (before after : Chars) × (t ≡ before ++ (part ++ after))

module _ (part : Chars) where
  Includes-front : (a t : Chars) → Includes part t → Includes part (a ++ t)
  Includes-front a t (before, after, split) =
      (a ++ before, after, ap (λ x. a ++ x) split ∙ sym (append_assoc a before (part ++ after)))

  Includes-back : (t b : Chars) → Includes part t → Includes part (t ++ b)
  Includes-back t b (before, after, split) = (
    before,
    after ++ b,
    ap (λ x. x ++ b) split
        ∙ append_assoc before (part ++ after) b
        ∙ ap (λ x. before ++ x) (append_assoc part after b),
  )

pair_block : Includes names_pair rs256_settings
unfolding rs256_settings lines
pair_block = (
  lines (
      "" ∷ "# JWT asymmetric signing (RS256)"
      ∷ "# Keys are stored in keys/ directory (excluded from version control)" ∷ []),
  [],
  refl,
)

secret_block : Includes names_secret hs256_settings
unfolding hs256_settings lines
secret_block = (
  lines (
      "" ∷ "# JWT symmetric signing (HS256) — consider upgrading to RS256 for production."
      ∷ "# See https://jwt-allauth.readthedocs.io/ for details." ∷ []),
  [],
  refl,
)

-- The text of settings for an answer of the generation of keys.
abbrev pub signing_part : Bool → Chars
signing_part true = names_pair
signing_part false = names_secret

append_blocks-Includes :
    (h : Host) (email rs256_ok : Bool) (t : Chars)
    → Includes (signing_part rs256_ok) (append_blocks h email rs256_ok t)
unfolding append_blocks
append_blocks-Includes h email true t = Includes-front names_pair t _ (
    Includes-front names_pair auth_backends _
      (Includes-back names_pair rs256_settings _ pair_block))
append_blocks-Includes h email false t = Includes-front names_secret t _ (
    Includes-front names_secret auth_backends _
      (Includes-back names_secret hs256_settings _ secret_block))

add_migration_modules-Includes :
    (part name t : Chars) → Includes part t → Includes part (add_migration_modules name t)
unfolding add_migration_modules
add_migration_modules-Includes part [] t its = its
add_migration_modules-Includes part (c ∷ name) t its =
    elim (Bool-cases (contains (codes "MIGRATION_MODULES") t)) [
      | inl has ↦ rw has its
      | inr lacks ↦ rw lacks (Includes-back part t (migration_modules (c ∷ name)) its)
    ]

pub modify_settings-Includes :
    (h : Host) (email : Bool) (name : Chars) (rs256_ok : Bool) (t settings : Chars)
    → modify_settings h email name rs256_ok t ≡ some settings
    → Includes (signing_part rs256_ok) settings
unfolding modify_settings
modify_settings-Includes h email name rs256_ok t settings made =
    let lists =
      sub_all (list_entry (codes "INSTALLED_APPS") (jwt_apps h.mfa_installed))
      >=> sub_all (list_entry (codes "MIDDLEWARE") allauth_middleware) in
    elim (Option-cases (lists (add_imports email t))) [
      | inl stuck ↦ absurd (ground arith)
      | inr (t', listed) ↦
          let its : add_migration_modules name (append_blocks h email rs256_ok t') ≡ settings =
            ground arith in
          rw (← its) (
            add_migration_modules-Includes (signing_part rs256_ok) name
              (append_blocks h email rs256_ok t') (append_blocks-Includes h email rs256_ok t'))
    ]
