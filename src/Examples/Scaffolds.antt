-- ===== src/Examples/Scaffolds.antt =====
-- A project that the command configures, and lists that it edits.
use jwt_allauth.Base.{◌≡◌, refl, inl, true, false, none, some, [], All}
use jwt_allauth.Scaffold.Text.{
  Chars, codes, sub_all, sub, list_entry, opening, body, closing, span, strip_prefix,
}
use jwt_allauth.Scaffold.Files.{
  settings_py, urls_py, text, Files, Disk, Host, HostLaws, generate_rsa_keys,
}
use jwt_allauth.Scaffold.Guards.{OnlyHere, exposed}
use jwt_allauth.Scaffold.Keys.{key_never_exposed}
use jwt_allauth.Scaffold.Project.{startproject, main}
use jwt_allauth.Scaffold.Created.{Configured, startproject_configures}

abbrev urlpatterns : Chars
urlpatterns = codes "urlpatterns = [a,\n]\n"

edited :
    sub_all (list_entry (codes "urlpatterns") (codes "b")) urlpatterns
    ≡ some (codes "urlpatterns = [a,\nb\n]\n")
unfolding sub_all sub list_entry opening body closing span strip_prefix
edited = refl

-- An empty list gets an entry behind a comma, which Python does not read.
empty_list :
    sub_all (list_entry (codes "urlpatterns") (codes "b")) (codes "urlpatterns = []")
    ≡ some (codes "urlpatterns = [,\nb\n]")
unfolding sub_all sub list_entry opening body closing span strip_prefix
empty_list = refl

abbrev made : Files
made settings_py = some (record { mode = 420; content = text (codes "INSTALLED_APPS = ['a']") })
made urls_py = some (record { mode = 420; content = text urlpatterns })
made _ = none

abbrev host : Host
host = record {
  created = λ mode. mode;
  chmod_works = true;
  has_cryptography = true;
  mfa_installed = true;
  new_key = 5;
  openssl_genrsa = λ f. none;
  openssl_rsa = λ f. none;
  django_admin = λ f. some made;
}

host-HostLaws : HostLaws host
host-HostLaws = record {
  created_private = refl;
  genrsa_writes = λ f f' h. absurd (cc);
  rsa_writes = λ f f' h. absurd (cc);
  rsa_public = λ f f' key h. absurd (cc);
}

abbrev disk : Disk
disk = record { files = λ p. none; history = [] }

key_never_exposed_example :
    All (λ f. (exposed 5 f ≡ false) × OnlyHere 5 f) (generate_rsa_keys host disk).1.history
key_never_exposed_example = key_never_exposed host host-HostLaws 5 disk refl (λ p. refl) (inl refl)

startproject_configures_example :
    let (code, d') = main host (startproject (codes "site") true) disk in
    (code ≡ 0)
    × Configured host (codes "site") true (codes "INSTALLED_APPS = ['a']") urlpatterns d'.files
startproject_configures_example =
    startproject_configures host host-HostLaws (codes "site") true (codes "INSTALLED_APPS = ['a']")
      urlpatterns disk made refl
      (record {
        settings = record { mode = 420; content = text (codes "INSTALLED_APPS = ['a']") };
        settings_there = refl;
        settings_text = refl;
        urls = record { mode = 420; content = text urlpatterns };
        urls_there = refl;
        urls_text = refl;
        no_keys = refl;
        no_migrations = refl;
        no_templates = refl;
      })
