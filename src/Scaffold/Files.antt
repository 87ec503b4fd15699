-- ===== src/Scaffold/Files.antt =====
-- The files that the command makes, and the two ways to generate a key pair (`_write_private_key`,
-- `_restrict` and `_generate_rsa_keys` of jwt_allauth/bin/jwt_allauth.py). The disk keeps every state
-- that it was in. The system and the programs that the command starts are the parameter Host.
use jwt_allauth.Base.{
  ℕ, ◌%◌, ◌≡◌, Bool, true, false, Option, none, some, List, [], ◌∷◌, ◌++◌, ◌==◌, is_some,
  if◌then◌else◌, ok, err, Exec, pure, modify, ◌>>◌,
}
use jwt_allauth.Scaffold.Text.{Chars, codes, newline}

-- Paths below the directory of the project.
pub data FilePath : Type 0 where
  keys private_pem public_pem gitignore settings_py urls_py templates : FilePath
  jwt_migrations external_init jwt_init : FilePath

abbrev pub number : FilePath → ℕ
number keys = 0
number private_pem = 1
number public_pem = 2
number gitignore = 3
number settings_py = 4
number urls_py = 5
number templates = 6
number jwt_migrations = 7
number external_init = 8
number jwt_init = 9

-- What a file holds. A key is known by its number.
pub data Content : Type 0 where
  directory : Content
  text : Chars → Content
  private_key public_key : ℕ → Content

-- A mode is the number of its permission bits.
pub record Entry : Type 0 where
  pub mode : ℕ
  pub content : Content

abbrev pub Files : Type 0
Files = FilePath → Option Entry

-- The files now, and every state since the start, the newest first.
pub record Disk : Type 0 where
  pub files : Files
  pub history : List Files

-- `created` is the mode that a file gets which is created with a mode, `chmod_works` whether a file
-- system carries permissions, `openssl_genrsa` and `openssl_rsa` are the two calls of OpenSSL and
-- `django_admin` is that of django-admin: none is a failure.
pub record Host : Type 0 where
  pub created : ℕ → ℕ
  pub chmod_works : Bool
  pub has_cryptography : Bool
  pub mfa_installed : Bool
  pub new_key : ℕ
  pub openssl_genrsa : Files → Option Files
  pub openssl_rsa : Files → Option Files
  pub django_admin : Files → Option Files

-- The bits of the group and of others.
abbrev pub only_owner : ℕ → Bool
only_owner mode = mode % 64 == 0

-- Whether a private key of this number is in a file.
abbrev pub is_key : ℕ → Content → Bool
is_key key (private_key n) = n == key
is_key key _ = false

abbrev pub holds_key : ℕ → Option Entry → Bool
holds_key key none = false
holds_key key (some e) = is_key key e.content

-- What the code relies on: a umask only takes bits away, and OpenSSL writes the file it is told to,
-- which is the public key alone for `-pubout`.
pub record HostLaws (h : Host) : Type 0 where
  pub created_private : only_owner (h.created 384) ≡ true
  pub genrsa_writes :
      (f f' : Files)
      → h.openssl_genrsa f ≡ some f'
      → (is_some (f' private_pem) ≡ true)
        × ((p : FilePath) → (number private_pem == number p) ≡ false → f' p ≡ f p)
  pub rsa_writes :
      (f f' : Files)
      → h.openssl_rsa f ≡ some f'
      → (is_some (f' public_pem) ≡ true)
        × ((p : FilePath) → (number public_pem == number p) ≡ false → f' p ≡ f p)
  pub rsa_public :
      (f f' : Files) (key : ℕ) → h.openssl_rsa f ≡ some f' → holds_key key (f' public_pem) ≡ false

pub data CommandError : Type 0 where
  file_exists no_such_file out_of_fuel : CommandError

abbrev pub Command : Type 0 → Type 0
Command A = Exec Disk CommandError A

abbrev pub become : Files → Disk → Disk
become f d = record { files = f; history = f ∷ d.history }

abbrev pub put : FilePath → Entry → Disk → Disk
put p e d = become (λ q. if number p == number q then some e else d.files q) d

abbrev pub is_directory : Content → Bool
is_directory directory = true
is_directory _ = false

-- `os.makedirs(p, exist_ok=True)`
unfoldable pub makedirs : Host → FilePath → Command (Unit {0})
makedirs h p d = elim (d.files p) [
  | none ↦ (ok tt, put p (record { mode = h.created 511; content = directory }) d)
  | some e ↦ if is_directory e.content then (ok tt, d) else (err file_exists, d)
]

-- A file that is there keeps its mode when it is opened to be written.
abbrev pub mode_of : Host → ℕ → Option Entry → ℕ
mode_of h wanted none = h.created wanted
mode_of h wanted (some e) = e.mode

abbrev pub write_file : Host → ℕ → FilePath → Content → Disk → Disk
write_file h wanted p content d =
    let mode = mode_of h wanted (d.files p) in
    put p (record { mode = mode; content = content })
      (put p (record { mode = mode; content = text [] }) d)

-- `_write_private_key`: created with mode 0o600
unfoldable pub write_private_key : Host → FilePath → ℕ → Disk → Disk
write_private_key h p key d = write_file h 384 p (private_key key) d

-- `_restrict`
unfoldable pub restrict : Host → FilePath → ℕ → Disk → Disk
restrict h p mode d =
    if h.chmod_works
    then elim (d.files p) [ none ↦ d | some e ↦ put p (record e { mode = mode }) d ]
    else d

unfoldable pub ignore_keys : Host → Disk → Disk
ignore_keys h d = write_file h 438 gitignore (text (codes "*.pem" ++ newline ∷ [])) d

-- `_generate_rsa_keys`, from where the directory is there
unfoldable pub with_cryptography : Host → Command Bool
unfolding write_private_key ignore_keys
with_cryptography h = do
  modify (write_private_key h private_pem h.new_key)
  modify (write_file h 438 public_pem (public_key h.new_key))
  modify (ignore_keys h)
  pure true

unfoldable pub with_openssl : Host → Command Bool
unfolding restrict ignore_keys
with_openssl h d = elim (h.openssl_genrsa d.files) [
  | none ↦ (ok false, d)
  | some f ↦
      let d1 = become f d in
      elim (h.openssl_rsa f) [
        | none ↦ (ok false, d1)
        | some f' ↦ (ok true, ignore_keys h (restrict h private_pem 384 (become f' d1)))
      ]
]

unfoldable pub generate_rsa_keys : Host → Command Bool
unfolding makedirs restrict with_cryptography with_openssl
generate_rsa_keys h = do
  makedirs h keys
  modify (restrict h keys 448)
  if h.has_cryptography then with_cryptography h else with_openssl h
