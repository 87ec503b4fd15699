-- ===== src/Scaffold/Project.antt =====
-- `main`, `_modify_settings`, `_modify_urls` and `_ensure_local_migration_modules` of
-- jwt_allauth/bin/jwt_allauth.py. The arguments are those that argparse hands over, and what is printed
-- is left out.
use Prim.Native.String.{String}
use jwt_allauth.Base.{
  ℕ, Bool, true, false, not, ◌&&◌, Option, none, some, List, [], ◌∷◌, ◌++◌, if◌then◌else◌, ok, err,
  pure, modify, ◌>>=◌, ◌>>◌,
}
use jwt_allauth.Scaffold.Text.{
  Chars, codes, newline, lines, contains, sub_all, list_entry, literal, docstring,
}
use jwt_allauth.Scaffold.Blocks.{
  auth_backends, rs256_settings, hs256_settings, mfa_settings, social_settings, email_settings,
}
use jwt_allauth.Scaffold.Files.{
  FilePath, settings_py, urls_py, templates, jwt_migrations, external_init, jwt_init, text, Disk,
  Host, no_such_file, out_of_fuel, Command, become, makedirs, write_file, generate_rsa_keys,
}

-- The imports that the settings for mail need.
unfoldable pub add_imports : Bool → Chars → Chars
unfolding contains lines
add_imports email t =
    let os = if email && not (contains (codes "import os") t) then "import os" ∷ [] else [] in
    let secrets =
      if email && not (contains (codes "import secrets") t) then "import secrets" ∷ [] else [] in
    lines (os ++ secrets) ++ t

-- `"\n".join(...)`
unfoldable pub join : List String → Chars
join [] = []
join (l ∷ []) = codes l
join (l ∷ ls) = codes l ++ newline ∷ join ls

unfoldable pub jwt_apps : Bool → Chars
unfolding join
jwt_apps mfa = join (
    ("    'jwt_allauth'," ∷ "    'rest_framework'," ∷ "    'rest_framework.authtoken',"
      ∷ "    'allauth'," ∷ "    'allauth.account'," ∷ "    'allauth.socialaccount'," ∷ [])
    ++ (if mfa then "    'allauth.mfa'," ∷ [] else []))

unfoldable pub allauth_middleware : Chars
allauth_middleware = codes "    'allauth.account.middleware.AccountMiddleware',"

unfoldable pub migration_modules : Chars → Chars
unfolding lines
migration_modules name =
    lines ("" ∷ "" ∷ "MIGRATION_MODULES = {" ∷ [])
    ++ (codes "    'jwt_allauth': '"
        ++ (name ++ (codes ".migrations_external.jwt_allauth'," ++ newline ∷ lines ("}" ∷ []))))

-- What is appended to the settings, in its order.
unfoldable pub append_blocks : Host → Bool → Bool → Chars → Chars
unfolding auth_backends rs256_settings hs256_settings mfa_settings social_settings email_settings
append_blocks h email rs256_ok t =
    t
    ++ (auth_backends
        ++ ((if rs256_ok then rs256_settings else hs256_settings)
            ++ ((if h.mfa_installed then mfa_settings else [])
                ++ (social_settings ++ (if email then email_settings else [])))))

abbrev is_empty : Chars → Bool
is_empty [] = true
is_empty (_ ∷ _) = false

unfoldable pub add_migration_modules : Chars → Chars → Chars
unfolding contains migration_modules
add_migration_modules name t =
    if not (is_empty name) && not (contains (codes "MIGRATION_MODULES") t)
    then t ++ migration_modules name
    else t

infixl 10 ◌>=>◌
abbrev pub ◌>=>◌ : (Chars → Option Chars) → (Chars → Option Chars) → Chars → Option Chars
◌>=>◌ f g t = elim (f t) [ none ↦ none | some t' ↦ g t' ]

-- `_modify_settings`, from the text that it reads to the text that it writes.
unfoldable pub modify_settings : Host → Bool → Chars → Bool → Chars → Option Chars
modify_settings h email name rs256_ok t =
    (sub_all (list_entry (codes "INSTALLED_APPS") (jwt_apps h.mfa_installed))
        >=> sub_all (list_entry (codes "MIDDLEWARE") allauth_middleware)
        >=> λ t'. some (add_migration_modules name (append_blocks h email rs256_ok t')))
      (add_imports email t)

-- The import of `include`, which is looked for outside the docstrings.
unfoldable pub import_include : Chars → Chars → Option Chars
unfolding contains
import_include no_comments t =
    let imports_path = contains (codes "from django.urls import path") no_comments in
    let has_include = contains (codes "include") no_comments in
    if has_include
    then some t
    else if imports_path
    then sub_all
        (literal (codes "from django.urls import path")
          (codes "from django.urls import path, include"))
        t
    else some (codes "from django.urls import include" ++ newline ∷ t)

abbrev pub jwt_urls : Chars
jwt_urls = codes "    path('jwt-allauth/', include('jwt_allauth.urls')),"

unfoldable pub with_import : Chars → Option Chars
unfolding import_include
with_import t = elim (sub_all docstring t) [
  | none ↦ none
  | some no_comments ↦ import_include no_comments t
]

unfoldable pub modify_urls : Chars → Option Chars
modify_urls t = (with_import >=> sub_all (list_entry (codes "urlpatterns") jwt_urls)) t

-- A file is read, edited and written again.
unfoldable pub edit : Host → FilePath → (Chars → Option Chars) → Command (Unit {0})
edit h p change d = elim (d.files p) [
  | none ↦ (err no_such_file, d)
  | some e ↦ elim e.content [
    | text t ↦ elim (change t) [
      | none ↦ (err out_of_fuel, d)
      | some t' ↦ (ok tt, write_file h 438 p (text t') d)
    ]
    | _ ↦ (err no_such_file, d)
  ]
]

-- `if not os.path.exists(p)`: an empty file
unfoldable pub touch : Host → FilePath → Disk → Disk
touch h p d = elim (d.files p) [ none ↦ write_file h 438 p (text []) d | some e ↦ d ]

unfoldable pub ensure_local_migration_modules : Host → Command (Unit {0})
unfolding makedirs touch
ensure_local_migration_modules h = do
  makedirs h jwt_migrations
  modify (touch h external_init)
  modify (touch h jwt_init)
  pure tt

pub data Arguments : Type 0 where
  startproject : (name : Chars) → (email : Bool) → Arguments
  help unknown : Arguments

-- What `main` does with a project that django-admin made.
unfoldable pub configure : Host → Chars → Bool → Command (Unit {0})
configure h name email = do
  rs256_ok ← generate_rsa_keys h
  edit h settings_py (modify_settings h email name rs256_ok)
  edit h urls_py modify_urls
  ensure_local_migration_modules h
  if email then makedirs h templates else pure tt

-- The exit code, and the disk.
unfoldable pub main : Host → Arguments → Disk → ℕ × Disk
unfolding configure
main h help d = (0, d)
main h unknown d = (1, d)
main h (startproject name email) d = elim (h.django_admin d.files) [
  | none ↦ (1, d)
  | some f ↦
      let (result, d') = configure h name email (become f d) in
      (elim result [ ok _ ↦ 0 | err _ ↦ 1 ], d')
]
