-- ===== src/Startup/Checks.antt =====
-- The system checks of jwt_allauth/checks.py, as the messages that they return. What Django and
-- allauth answer (which URLs reverse, which apps are installed, which version a distribution has) are
-- fields of Environment; a version is the list of its characters.
use Prim.Native.String.{String}
use jwt_allauth.Base.{
  ℕ, ◌+◌, ◌-◌, ◌*◌, ◌≡◌, refl, ◌∙◌, ap, Bool, true, false, not, ◌&&◌, Option, none, some, List, [],
  ◌∷◌, ◌++◌, arith, leb, ◌==◌, exists, if◌then◌else◌,
}

pub data Message : Type 0 where
  no_verified_redirect no_social_stack no_social_provider : Message
  social_email_authentication role_is_relation role_is_no_integer : Message
  untested_upstream : String → ℕ → Message

-- An entry of SOCIALACCOUNT_PROVIDERS: whether it is a dict with an app, and whether it names
-- EMAIL_AUTHENTICATION.
pub data ProviderEntry : Type 0 where
  not_a_dict : ProviderEntry
  entry : Bool → Bool → ProviderEntry

pub data RoleField : Type 0 where
  no_user_model no_role_field relation integer_field other_field : RoleField

pub record Environment : Type 0 where
  pub confirmation_routed : Bool
  pub verified_redirect_set : Bool
  pub verified_page_routed : Bool
  pub socialaccount_installed : Bool
  pub provider_app_installed : Bool
  pub providers : List ProviderEntry
  pub socialaccount_stack_available : Bool
  pub email_authentication_set : Bool
  pub social_login_routed : Bool
  pub role_field : RoleField
  pub version : String → Option (List ℕ)

-- `[message]` or `[]`
abbrev report_if : Bool → Message → List Message
report_if true m = m ∷ []
report_if false m = []

unfoldable pub check_verified_redirect : Environment → List Message
check_verified_redirect e =
    if not e.confirmation_routed
    then []
    else if e.verified_redirect_set
    then []
    else if e.verified_page_routed
    then []
    else no_verified_redirect ∷ []

abbrev has_app : ProviderEntry → Bool
has_app not_a_dict = false
has_app (entry app authentication) = app

abbrev has_email_authentication : ProviderEntry → Bool
has_email_authentication not_a_dict = false
has_email_authentication (entry app authentication) = authentication

abbrev any_entry : List ProviderEntry → Bool
any_entry [] = false
any_entry (_ ∷ _) = true

unfoldable pub check_social_providers : Environment → List Message
check_social_providers e =
    if not e.socialaccount_installed
    then []
    else if not (any_entry e.providers) && not e.provider_app_installed
    then []
    else if not e.socialaccount_stack_available
    then no_social_stack ∷ []
    else if exists has_app e.providers
    then []
    else no_social_provider ∷ []

unfoldable pub check_social_email_authentication : Environment → List Message
check_social_email_authentication e =
    if not e.email_authentication_set && not (exists has_email_authentication e.providers)
    then []
    else if not e.social_login_routed
    then []
    else social_email_authentication ∷ []

unfoldable pub check_role_field : Environment → List Message
check_role_field e = elim e.role_field [
  | relation ↦ role_is_relation ∷ []
  | other_field ↦ role_is_no_integer ∷ []
  | _ ↦ []
]

-- `raw.split('.', 1)[0]`
unfoldable pub until_dot : List ℕ → List ℕ
until_dot [] = []
until_dot (c ∷ cs) = let rest = until_dot cs in if c == b'.' then [] else c ∷ rest

abbrev pub is_digit : ℕ → Bool
is_digit c = leb b'0' c && leb c b'9'

-- `head.isdigit()`, for the digits of ASCII
unfoldable pub is_number : List ℕ → Bool
is_number [] = false
is_number (c ∷ cs) = is_digit c && not (exists (λ d. not (is_digit d)) cs)

-- `int(head)`, digit by digit
unfoldable pub read_number : List ℕ → ℕ → ℕ
read_number [] n = n
read_number (c ∷ cs) n = read_number cs (n * 10 + (c - b'0'))

-- `_installed_major`
unfoldable pub installed_major : Option (List ℕ) → Option ℕ
unfolding until_dot is_number read_number
installed_major none = none
installed_major (some raw) =
    let head = until_dot raw in if is_number head then some (read_number head 0) else none

unfoldable pub check_upstream : Option ℕ → String → ℕ → List Message
check_upstream none distribution tested = []
check_upstream (some major) distribution tested =
    if leb major tested then [] else untested_upstream distribution major ∷ []

-- TESTED_UPSTREAM_MAJORS, sorted
unfoldable pub check_upstream_versions : Environment → List Message
unfolding installed_major check_upstream
check_upstream_versions e =
    check_upstream (installed_major (e.version "django-allauth")) "django-allauth" 65
    ++ check_upstream (installed_major (e.version "djangorestframework-simplejwt"))
        "djangorestframework-simplejwt" 5

-- The value of a numeral by the places of its digits.
abbrev pub ten_to : List ℕ → ℕ
ten_to [] = 1
ten_to (_ ∷ cs) = 10 * ten_to cs

abbrev pub positional : List ℕ → ℕ
positional [] = 0
positional (c ∷ cs) = (c - b'0') * ten_to cs + positional cs

shift : (n d t v : ℕ) → (n * 10 + d) * t + v ≡ n * (10 * t) + (d * t + v)
shift n d t v = grind arith

read_number-positional : (cs : List ℕ) (n : ℕ) → read_number cs n ≡ n * ten_to cs + positional cs
unfolding read_number
read_number-positional [] n = grind arith
read_number-positional (c ∷ cs) n =
    read_number-positional cs (n * 10 + (c - b'0')) ∙ shift n (c - b'0') (ten_to cs) (positional cs)

abbrev not_digit : ℕ → Bool
not_digit d = not (is_digit d)

until_dot-digits :
    (ds rest : List ℕ) → exists not_digit ds ≡ false → until_dot (ds ++ b'.' ∷ rest) ≡ ds
unfolding until_dot exists
until_dot-digits [] rest h = refl
until_dot-digits (c ∷ ds) rest h = ground (arith, until_dot-digits ds rest)

is_number-digits : (ds : List ℕ) → is_number ds ≡ true → exists not_digit ds ≡ false
unfolding is_number exists
is_number-digits [] h = absurd (cc)
is_number-digits (c ∷ ds) h = ground arith

installed_major-positional :
    (ds rest : List ℕ)
    → is_number ds ≡ true
    → installed_major (some (ds ++ b'.' ∷ rest)) ≡ some (positional ds)
unfolding installed_major
installed_major-positional ds rest h =
    rw (until_dot-digits ds rest (is_number-digits ds h), h, read_number-positional ds 0)
      (ap some (grind arith))

-- What there is to say of a distribution whose version starts with this numeral.
abbrev pub newer_than : ℕ → String → List ℕ → List Message
newer_than tested distribution ds =
    if leb (positional ds) tested then [] else untested_upstream distribution (positional ds) ∷ []

-- The check of the upstreams reads a version by the places of its digits: where the versions of the two
-- distributions each start with a number and a dot, it returns a message about the first if its number
-- is above 65, one about the second if its number is above 5, each with the number as the major, and
-- nothing else.
upstream_check_reads_majors :
    (e : Environment) (ds rest ds' rest' : List ℕ)
    → is_number ds ≡ true
    → is_number ds' ≡ true
    → e.version "django-allauth" ≡ some (ds ++ b'.' ∷ rest)
    → e.version "djangorestframework-simplejwt" ≡ some (ds' ++ b'.' ∷ rest')
    → check_upstream_versions e
      ≡ newer_than 65 "django-allauth" ds ++ newer_than 5 "djangorestframework-simplejwt" ds'
unfolding check_upstream_versions check_upstream
upstream_check_reads_majors e ds rest ds' rest' number number' is is' =
    rw
      (
        is,
        is',
        installed_major-positional ds rest number,
        installed_major-positional ds' rest' number',
      )
      refl
