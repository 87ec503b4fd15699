-- ===== src/Startup/Settled.antt =====
-- What the startup settles (`JWTAllauthAppConfig.ready` of jwt_allauth/apps.py).
use Prim.Native.String.{String}
use jwt_allauth.Base.{
  ◌≡◌, refl, ◌∙◌, sym, subst, ap, inl, inr, true, false, not, Option, none, some, List, [], ◌++◌,
  exists, arith, Option-cases, Result-cases, ok, some-eq,
}
use jwt_allauth.Settings.{
  Settings, Method, off, named, is_mandatory, is_off, flag, EmailVerification, verification_enabled,
  verification_is_mandatory,
}
use jwt_allauth.Startup.Project.{
  Project, StartupWarning, Value, Dict, resolve_email_verification, resolve_flag, resolve_named,
  reject_unsupported,
}
use jwt_allauth.Startup.Ready.{
  lookup, fill, fill_allauth, default_allauth, default_simplejwt, default_rest_framework,
  simple_jwt_warnings, ready, is_in, only_email, only_signup_fields, simple_jwt_settings,
  get_signing_key,
}
use jwt_allauth.Startup.Passes.{passes, passes_idem, allauth-passes}
use jwt_allauth.Startup.Defaults.{or_else, lookup-fill}

-- The two settings of the e-mail verification say one thing, with a method that there is.
pub record IsResolved (p : Project) (m : Method) : Type 0 where
  pub declared : p.account_email_verification ≡ some m
  pub flagged : p.email_verification ≡ flag (not (is_off m))

resolve_resolved :
    (p : Project) (m : Method) (ws : List StartupWarning)
    → resolve_email_verification p ≡ ok (m, ws)
    → resolve_flag (not (is_off m)) (some m) ≡ ok (m, [])
unfolding resolve_email_verification resolve_flag resolve_named
resolve_resolved p m ws h = ground arith

-- Startup leaves both settings of the verification in agreement.
default_allauth-IsResolved :
    (p q : Project) (ws : List StartupWarning)
    → default_allauth p ≡ ok (q, ws)
    → (m : Method) × (vs : List StartupWarning) × (resolve_email_verification p ≡ ok (m, vs))
      × IsResolved q m
unfolding default_allauth
default_allauth-IsResolved p q ws h = elim (Result-cases (resolve_email_verification p)) [
  | inr (e, failed) ↦ absurd (ground arith)
  | inl ((m, vs), resolved) ↦
      (m, vs, resolved, record { declared = ground arith; flagged = ground arith })
]

-- What a startup that succeeds has done.
pub record Started (p q : Project) : Type 0 where
  pub supported : reject_unsupported p ≡ ok tt
  pub method : Method
  pub warnings : List StartupWarning
  pub resolved : resolve_email_verification p ≡ ok (method, warnings)
  pub settled : q ≡ passes (fill_allauth method p)

ready-Started : (p q : Project) (ws : List StartupWarning) → ready p ≡ ok (q, ws) → Started p q
unfolding ready passes default_allauth
ready-Started p q ws h = elim (Result-cases (reject_unsupported p)) [
  | inr (e, failed) ↦ absurd (ground arith)
  | inl (_, supported) ↦ elim (Result-cases (resolve_email_verification p)) [
    | inr (e, failed) ↦ absurd (ground arith)
    | inl ((m, vs), resolved) ↦ record {
      supported = ground arith;
      method = m;
      warnings = vs;
      resolved = resolved;
      settled = ground arith;
    }
  ]
]

resolve-settled :
    (m : Method) (p : Project)
    → resolve_email_verification (passes (fill_allauth m p))
      ≡ resolve_flag (not (is_off m)) (some m)
unfolding passes fill_allauth default_rest_framework default_simplejwt resolve_email_verification
resolve-settled m p = refl

reject-settled :
    (m : Method) (p : Project)
    → reject_unsupported (passes (fill_allauth m p)) ≡ reject_unsupported p
unfolding passes fill_allauth default_rest_framework default_simplejwt reject_unsupported
reject-settled m p = refl

-- The settings of a startup that succeeded are accepted.
default_allauth-again :
    (m : Method) (p : Project)
    → resolve_email_verification (passes (fill_allauth m p)) ≡ ok (m, [])
    → default_allauth (passes (fill_allauth m p))
      ≡ ok (fill_allauth m (passes (fill_allauth m p)), [])
unfolding default_allauth passes fill_allauth default_rest_framework default_simplejwt only_email
    only_signup_fields is_in exists
default_allauth-again m p resolved = rw (default_allauth, resolved) refl

ready-ok :
    (p q : Project) (ws : List StartupWarning)
    → reject_unsupported p ≡ ok tt
    → default_allauth p ≡ ok (q, ws)
    → ready p ≡ ok (passes q, ws ++ simple_jwt_warnings q)
unfolding ready passes
ready-ok p q ws supported filled = rw (ready, supported, filled) refl

-- The settings that a successful startup leaves are accepted by another one, which leaves them as they
-- are.
startup_again :
    (p q : Project) (ws : List StartupWarning)
    → ready p ≡ ok (q, ws)
    → (vs : List StartupWarning) × (ready q ≡ ok (q, vs))
startup_again p q ws h =
    let started = ready-Started p q ws h in
    let m = started.method in
    let again =
      ready-ok (passes (fill_allauth m p)) (fill_allauth m (passes (fill_allauth m p))) []
        (reject-settled m p ∙ started.supported)
        (default_allauth-again m p
          (resolve-settled m p ∙ resolve_resolved p m started.warnings started.resolved)) in
    let same : passes (fill_allauth m (passes (fill_allauth m p))) ≡ q =
      ap passes (allauth-passes m p) ∙ passes_idem (fill_allauth m p) ∙ sym started.settled in
    let vs = simple_jwt_warnings (fill_allauth m (passes (fill_allauth m p))) in
    (
      vs,
      subst (λ r. ready r ≡ ok (r, vs)) (sym started.settled)
          (again ∙ ap (λ (r : Project). ok (r, vs)) (same ∙ started.settled)),
    )

method-settled : (m : Method) (p : Project) → IsResolved (passes (fill_allauth m p)) m
unfolding passes fill_allauth default_rest_framework default_simplejwt
method-settled m p = record { declared = refl; flagged = refl }

-- What the project asks for, where it does not leave the method open.
abbrev pub wanted : EmailVerification → Method → Method
wanted (named method) open_choice = method
wanted (flag false) open_choice = off
wanted (flag true) open_choice = open_choice

-- Startup settles on one verification method, the one that the project's settings resolve to, and
-- everything that reads the settings afterwards agrees with it: verification is mandatory if the
-- method is, and addresses are confirmed at all unless the method is 'none'. A project that asked
-- for a method by name gets this method, and one whose EMAIL_VERIFICATION is False gets 'none'.
pub startup_agrees :
    (p q : Project) (ws : List StartupWarning) (cfg : Settings)
    → ready p ≡ ok (q, ws)
    → cfg.email_verification ≡ q.email_verification
    → some cfg.allauth_method ≡ q.account_email_verification
    → (m : Method) × (vs : List StartupWarning) × (resolve_email_verification p ≡ ok (m, vs))
      × (verification_is_mandatory cfg ≡ is_mandatory m)
      × (verification_enabled cfg ≡ not (is_off m))
      × (m ≡ wanted p.email_verification m)
unfolding verification_is_mandatory verification_enabled resolve_email_verification resolve_named
    resolve_flag
startup_agrees p q ws cfg h flags methods =
    let started = ready-Started p q ws h in
    let m = started.method in
    let settled : IsResolved q m =
      subst (λ r. IsResolved r m) (sym started.settled) (method-settled m p) in
    let flagged : cfg.email_verification ≡ flag (not (is_off m)) = flags ∙ settled.flagged in
    let chosen : cfg.allauth_method ≡ m = some-eq (methods ∙ settled.declared) in
    (
      m,
      started.warnings,
      started.resolved,
      ground (arith, started.resolved),
      ground arith,
      ground (arith, started.resolved),
    )

simple_jwt-settled :
    (m : Method) (p : Project)
    → (passes (fill_allauth m p)).simple_jwt
      ≡ some (elim p.simple_jwt [
        | none ↦ simple_jwt_settings p
        | some declared ↦ fill (simple_jwt_settings p) declared
      ])
unfolding passes fill_allauth default_rest_framework default_simplejwt simple_jwt_settings
    get_signing_key
simple_jwt-settled m p = refl

abbrev pub declared_in : Option Dict → String → Option Value
declared_in none k = none
declared_in (some d) k = lookup k d

-- Every key of SIMPLE_JWT that the project declares is kept, and every other key is what the library
-- defaults it to.
startup_keeps_declared :
    (p q : Project) (ws : List StartupWarning) (k : String)
    → ready p ≡ ok (q, ws)
    → declared_in q.simple_jwt k
      ≡ or_else (declared_in p.simple_jwt k) (lookup k (simple_jwt_settings p))
unfolding simple_jwt_settings
startup_keeps_declared p q ws k h =
    let started = ready-Started p q ws h in
    rw (started.settled, simple_jwt-settled started.method p)
      (elim (Option-cases p.simple_jwt) [
        | inl missing ↦ rw missing refl
        | inr (d, given) ↦ rw given (lookup-fill k (simple_jwt_settings p) d)
      ])

-- Startup settles: the settings that a successful startup leaves are accepted by another one, which
-- leaves them as they are. Every key of SIMPLE_JWT that the project declares is kept, and every other
-- key is what the library defaults it to.
pub startup_settles :
    (p q : Project) (ws : List StartupWarning) (k : String)
    → ready p ≡ ok (q, ws)
    → ((vs : List StartupWarning) × (ready q ≡ ok (q, vs)))
      × (declared_in q.simple_jwt k
          ≡ or_else (declared_in p.simple_jwt k) (lookup k (simple_jwt_settings p)))
startup_settles p q ws k h = (startup_again p q ws h, startup_keeps_declared p q ws k h)
