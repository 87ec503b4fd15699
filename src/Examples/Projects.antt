-- ===== src/Examples/Projects.antt =====
-- A project that asks for mandatory verification and declares a part of SIMPLE_JWT.
use jwt_allauth.Base.{◌≡◌, refl, true, not, none, some, List, [], ◌∷◌, exists, ok}
use jwt_allauth.Examples.{cfg}
use jwt_allauth.Settings.{
  Method, mandatory, named, flag, is_mandatory, is_off, verification_enabled,
  verification_is_mandatory, Settings,
}
use jwt_allauth.Startup.Defaults.{or_else}
use jwt_allauth.Startup.Project.{
  Project, StartupWarning, number, sliding, resolve_email_verification, resolve_named,
  reject_unsupported,
}
use jwt_allauth.Startup.Ready.{
  ready, default_allauth, only_email, only_signup_fields, is_in, lookup, simple_jwt_settings,
}
use jwt_allauth.Startup.Settled.{startup_settles, startup_agrees, wanted, declared_in}

abbrev project : Project
project = record {
  debug = true;
  secret_key = "secret";
  jwt_allauth_secret_key = none;
  jwt_secret_key = some "old";
  email_verification = named mandatory;
  account_email_verification = none;
  account_adapter = none;
  mfa_adapter = none;
  socialaccount_installed = true;
  socialaccount_adapter = none;
  account_login_methods = some ("email" ∷ []);
  account_signup_fields = none;
  site_id = some 3;
  unique_email = none;
  account_email_subject_prefix = none;
  rotate_refresh_tokens = none;
  blacklist_after_rotation = none;
  session_lifetime = sliding;
  jwt_allauth_access_token_lifetime = none;
  jwt_access_token_lifetime = none;
  jwt_allauth_refresh_token_lifetime = none;
  jwt_refresh_token_lifetime = none;
  simple_jwt = some (("LEEWAY", number 5) ∷ []);
  rest_framework = none;
  authentication_backends = none;
  middleware = [];
}

started : (q : Project) × (ws : List StartupWarning) × (ready project ≡ ok (q, ws))
unfolding ready default_allauth only_email only_signup_fields is_in exists
    resolve_email_verification resolve_named reject_unsupported
started = (_, _, refl)

settled_cfg : Settings
settled_cfg = record cfg { email_verification = flag true; allauth_method = mandatory }

startup_agrees_example :
    (m : Method) × (vs : List StartupWarning) × (resolve_email_verification project ≡ ok (m, vs))
    × (verification_is_mandatory settled_cfg ≡ is_mandatory m)
    × (verification_enabled settled_cfg ≡ not (is_off m))
    × (m ≡ wanted project.email_verification m)
unfolding started settled_cfg ready default_allauth
startup_agrees_example = startup_agrees project started.0 started.1 settled_cfg started.2 refl refl

startup_settles_example :
    ((vs : List StartupWarning) × (ready started.0 ≡ ok (started.0, vs)))
    × (declared_in started.0.simple_jwt "LEEWAY"
        ≡ or_else
            (declared_in project.simple_jwt "LEEWAY")
            (lookup "LEEWAY" (simple_jwt_settings project)))
startup_settles_example = startup_settles project started.0 started.1 "LEEWAY" started.2
