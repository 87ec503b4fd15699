-- ===== src/Scaffold/Created.antt =====
-- What the command leaves of a project that django-admin made.
use jwt_allauth.Base.{
  ◌≡◌, refl, ap, subst, ◌∙◌, inl, inr, Bool, true, false, Option, none, some, [], arith, leb, ◌==◌,
  is_some, if◌then◌else◌, ok, Option-cases,
}
use jwt_allauth.Scaffold.Text.{Chars}
use jwt_allauth.Base.{◌>>=◌, pure}
use jwt_allauth.Scaffold.Files.{
  Command, FilePath, number, keys, private_pem, public_pem, settings_py, urls_py, templates,
  jwt_migrations, external_init, jwt_init, Content, directory, text, Entry, Files, Disk, Host,
  HostLaws, put, become, mode_of, write_file, makedirs, generate_rsa_keys,
}
use jwt_allauth.Scaffold.Generated.{generate-Generated}
use jwt_allauth.Scaffold.Project.{
  modify_settings, modify_urls, edit, touch, ensure_local_migration_modules, startproject,
  configure, main,
}
use jwt_allauth.Scaffold.Signing.{
  names_pair, names_secret, Includes, signing_part, modify_settings-Includes,
}
use jwt_allauth.Scaffold.Totals.{modify_settings-Total, modify_urls-Total}

-- Paths that the migration modules leave alone.
abbrev Keeps : Files → Files → Type 0
Keeps f f' = (p : FilePath) → leb (number p) 6 ≡ true → f' p ≡ f p

put-Keeps :
    (f : Files) (q : FilePath) (e : Entry) (d : Disk)
    → leb (number q) 6 ≡ false
    → Keeps f d.files
    → Keeps f (put q e d).files
put-Keeps f q e d new same p old =
    let apart : (number q == number p) ≡ false = ground arith in rw apart (same p old)

touch-new :
    (h : Host) (q : FilePath) (d : Disk)
    → d.files q ≡ none
    → touch h q d ≡ write_file h 438 q (text []) d
unfolding touch
touch-new h q d missing = ground arith

touch-Keeps :
    (f : Files) (h : Host) (q : FilePath) (d : Disk)
    → leb (number q) 6 ≡ false
    → Keeps f d.files
    → Keeps f (touch h q d).files
unfolding touch
touch-Keeps f h q d new same = elim (Option-cases (d.files q)) [
  | inr (e, there) ↦ rw (there, touch) same
  | inl missing ↦
      let empty : Entry = record { mode = mode_of h 438 (d.files q); content = text [] } in
      rw (touch-new h q d missing)
        (put-Keeps f q empty (put q empty d) new (put-Keeps f q empty d new same))
]

migrations-made :
    (h : Host) (d : Disk)
    → d.files jwt_migrations ≡ none
    → (d' : Disk) × (ensure_local_migration_modules h d ≡ (ok tt, d')) × Keeps d.files d'.files
unfolding ensure_local_migration_modules
migrations-made h d missing =
    let entry : Entry = record { mode = h.created 511; content = directory } in
    let made = put jwt_migrations entry d in
    let first = touch h external_init made in
    (
      touch h jwt_init first,
      ground (arith, missing),
      touch-Keeps d.files h jwt_init first refl (
          touch-Keeps d.files h external_init made refl
            (put-Keeps d.files jwt_migrations entry d refl (λ p old. refl))),
    )

edit-ok :
    (h : Host) (p : FilePath) (change : Chars → Option Chars) (d : Disk) (e : Entry) (t t' : Chars)
    → d.files p ≡ some e
    → e.content ≡ text t
    → change t ≡ some t'
    → edit h p change d ≡ (ok tt, write_file h 438 p (text t') d)
unfolding edit
edit-ok h p change d e t t' there holds made = ground arith

bind-ok :
    {A B : Type 0} (m : Command A) (f : A → Command B) (d d' : Disk) (a : A)
    → m d ≡ (ok a, d')
    → (m >>= f) d ≡ f a d'
bind-ok m f d d' a h = ground arith

-- A project as django-admin makes it: with settings and URLs, and without what the command adds.
pub record Fresh (f : Files) (t u : Chars) : Type 0 where
  pub settings : Entry
  pub settings_there : f settings_py ≡ some settings
  pub settings_text : settings.content ≡ text t
  pub urls : Entry
  pub urls_there : f urls_py ≡ some urls
  pub urls_text : urls.content ≡ text u
  pub no_keys : f keys ≡ none
  pub no_migrations : f jwt_migrations ≡ none
  pub no_templates : f templates ≡ none

abbrev pub Holds : Content → Option Entry → Type 0
Holds content found = (e : Entry) × (found ≡ some e) × (e.content ≡ content)

-- What a run leaves: the edited files, and the keys that the settings name.
pub record Configured (h : Host) (name : Chars) (email : Bool) (t u : Chars) (f : Files)
    : Type 0 where
  pub rs256_ok : Bool
  pub settings : Chars
  pub urls : Chars
  pub settings_made : modify_settings h email name rs256_ok t ≡ some settings
  pub urls_made : modify_urls u ≡ some urls
  pub settings_written : Holds (text settings) (f settings_py)
  pub urls_written : Holds (text urls) (f urls_py)
  pub pair :
      rs256_ok ≡ true
      → Includes names_pair settings
        × (is_some (f private_pem) ≡ true)
        × (is_some (f public_pem) ≡ true)
  pub secret : rs256_ok ≡ false → Includes names_secret settings

templates-made :
    (h : Host) (email : Bool) (d : Disk)
    → d.files templates ≡ none
    → (d' : Disk) × ((if email then makedirs h templates else pure tt) d ≡ (ok tt, d'))
      × ((p : FilePath) → leb (number p) 5 ≡ true → d'.files p ≡ d.files p)
unfolding makedirs
templates-made h false d missing = (d, refl, λ p old. refl)
templates-made h true d missing = (
  put templates (record { mode = h.created 511; content = directory }) d,
  rw (missing, makedirs) refl,
  λ p old. let apart : (6 == number p) ≡ false = ground arith in rw apart refl,
)

module _ (h : Host) (name : Chars) (email : Bool) (d d1 d2 d3 d4 d5 : Disk) (rs256_ok : Bool) where
  configure-runs :
      generate_rsa_keys h d ≡ (ok rs256_ok, d1)
      → edit h settings_py (modify_settings h email name rs256_ok) d1 ≡ (ok tt, d2)
      → edit h urls_py modify_urls d2 ≡ (ok tt, d3)
      → ensure_local_migration_modules h d3 ≡ (ok tt, d4)
      → (if email then makedirs h templates else pure tt) d4 ≡ (ok tt, d5)
      → configure h name email d ≡ (ok tt, d5)
  unfolding configure
  configure-runs a b c e f = ground arith

configure-Configured :
    (h : Host) (laws : HostLaws h) (name : Chars) (email : Bool) (t u : Chars) (d : Disk)
    → Fresh d.files t u
    → (d' : Disk) × (configure h name email d ≡ (ok tt, d')) × Configured h name email t u d'.files
configure-Configured h laws name email t u d fresh =
    let g = generate-Generated h laws d fresh.no_keys in
    let d1 = (generate_rsa_keys h d).1 in
    let (t', t_made) = modify_settings-Total h email name g.answer t in
    let signing = modify_settings-Includes h email name g.answer t t' t_made in
    let (u', u_made) = modify_urls-Total u in
    let d2 = write_file h 438 settings_py (text t') d1 in
    let d3 = write_file h 438 urls_py (text u') d2 in
    let (d4, ensured, kept) =
      migrations-made h d3 (g.others jwt_migrations refl ∙ fresh.no_migrations) in
    let (d5, finished, same) =
      templates-made h email d4
        (kept templates refl ∙ g.others templates refl ∙ fresh.no_templates) in
    let first =
      edit-ok h settings_py (modify_settings h email name g.answer) d1 fresh.settings t t'
        (g.others settings_py refl ∙ fresh.settings_there) fresh.settings_text t_made in
    let second =
      edit-ok h urls_py modify_urls d2 fresh.urls u u' (g.others urls_py refl ∙ fresh.urls_there)
        fresh.urls_text u_made in
    let mode1 = mode_of h 438 (d1.files settings_py) in
    let mode2 = mode_of h 438 (d2.files urls_py) in
    let settings' : Entry = record { mode = mode1; content = text t' } in
    let urls' : Entry = record { mode = mode2; content = text u' } in
    (
      d5,
      configure-runs h name email d d1 d2 d3 d4 d5 g.answer (ap (λ r. (r, d1)) g.answered) first
          second ensured finished,
      record {
        rs256_ok = g.answer;
        settings = t';
        urls = u';
        settings_made = t_made;
        urls_made = u_made;
        settings_written = (settings', same settings_py refl ∙ kept settings_py refl, refl);
        urls_written = (urls', same urls_py refl ∙ kept urls_py refl, refl);
        pair = λ said. (
          subst (λ b. Includes (signing_part b) t') said signing,
          ap is_some (same private_pem refl ∙ kept private_pem refl) ∙ (g.pair said).0,
          ap is_some (same public_pem refl ∙ kept public_pem refl) ∙ (g.pair said).1,
        );
        secret = λ denied. subst (λ b. Includes (signing_part b) t') denied signing;
      },
    )

-- `startproject` on a disk where django-admin makes a project with settings and URLs and without the
-- files that the command adds: it exits with 0, both edits have a result and their results are in the
-- files. Either the text of the settings has Simple JWT sign with keys/private.pem and verify with
-- keys/public.pem, and both files are there, or it has the proposal of a secret in that place.
pub startproject_configures :
    (h : Host) (laws : HostLaws h) (name : Chars) (email : Bool) (t u : Chars) (d : Disk)
    (f : Files)
    → h.django_admin d.files ≡ some f
    → Fresh f t u
    → let (code, d') = main h (startproject name email) d in
      (code ≡ 0) × Configured h name email t u d'.files
unfolding main
startproject_configures h laws name email t u d f made fresh =
    let (d', configured, result) = configure-Configured h laws name email t u (become f d) fresh in
    rw (made, main, configured) (refl, result)
