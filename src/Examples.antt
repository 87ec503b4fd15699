-- ===== src/Examples.antt =====
-- Settings, tokens and tables for the tests, with a token backend that counts in seconds.
pub mod Sessions
pub mod Tokens
pub mod SecondFactor
pub mod Retention
pub mod Handovers
pub mod Addresses
pub mod Signups
pub mod Enrolment
pub mod Refusals
pub mod Projects
pub mod Journeys
pub mod Providers
pub mod Invitations
pub mod Scaffolds
pub mod Invitees
pub mod Mails
use jwt_allauth.Base.{ℕ, ◌+◌, ◌*◌, ◌/◌, refl, Bool, true, false, Option, none, some, List, [], ◌∷◌}
use jwt_allauth.Claim.{Claim, mapping}
use jwt_allauth.Db.{
  RefreshTokenWhitelistModel, GenericTokenModel, User, EmailAddress, Db, second, day, missing,
  pass_reset_access,
}
use jwt_allauth.Settings.{
  Settings, named, mandatory, unset, totp_optional, linking_flag, get_cookie_secure,
}
use jwt_allauth.Token.{Payload, Jwt, JwtLaws, Request}

abbrev pub cfg : Settings
cfg = record {
  debug = false;
  email_verification = named mandatory;
  allauth_method = mandatory;
  allauth_prevent_enumeration = true;
  allauth_unique_email = true;
  allauth_confirmation_expire_days = 3;
  invitations = false;
  admin_managed_registration = false;
  cookie_max_age = unset;
  cookie_secure = none;
  as_cookie = true;
  cookie_http_only = true;
  cookie_same_site = 0;
  cookie_path = 0;
  capability_cookie_csrf = true;
  session_on_email_verification = true;
  session_lifetime = some (100 * second);
  access_token_lifetime = 30 * second;
  refresh_token_lifetime = some (60 * second);
  default_refresh_token_lifetime = day;
  password_reset_timeout = 3600;
  token_retention = [];
  logout_on_password_change = true;
  access_token_session_check = true;
  totp_mode = totp_optional;
  mfa_challenge_max_attempts = 3;
  mfa_max_attempts = 5;
  mfa_lockout_seconds = 900;
  registration_allowed_roles = none;
  social_email_linking = linking_flag true;
  social_require_verified_email = true;
  social_callback_urls = none;
  update_last_login = true;
  user_attributes = mapping ((Claim.attribute 3, Claim.attribute 4 ∷ []) ∷ []);
}

abbrev pub payload : ℕ → ℕ → ℕ → Payload
payload now jti user = record {
  jti = jti;
  exp = now / second + 60;
  iat = now / second;
  user_id = some user;
  session = none;
  session_iat = none;
  role = none;
  email_verified = none;
  attributes = [];
  for_user = none;
  one_time_permission = none;
}

abbrev pub jwt : Jwt
jwt = record {
  from_epoch = λ t. t * second;
  to_epoch = λ t. t / second;
  exp_at = λ now. now / second + 60;
  new_token = payload;
  blank_token = λ now jti. record (payload now jti 0) { user_id = none };
  derive_access = λ now p. record p { exp = now / second + 30 };
}

pub jwt-JwtLaws : JwtLaws jwt
jwt-JwtLaws = record {
  new_jti = λ now jti user. refl;
  new_user = λ now jti user. refl;
  access_session = λ now p. refl;
  access_role = λ now p. refl;
  access_user = λ now p. refl;
  access_for_user = λ now p. refl;
  access_permission = λ now p. refl;
}

-- The n-th request, n seconds after the epoch; every attribute of a user is its id.
abbrev pub request : ℕ → Request
request n = record {
  now = n * second;
  fresh_jti = 100 + n;
  fresh_session = 200 + n;
  resolve = λ user path. some user;
}

abbrev pub alice : User
alice = record {
  id = 7;
  is_active = true;
  is_staff = true;
  is_superuser = false;
  role = missing;
  usable_password = true;
  last_login = none;
}

-- The session 10 of alice, its row and the token that carries its jti.
abbrev pub row : RefreshTokenWhitelistModel
row = record { pk = 1; created = 0; jti = 1; enabled = true; session = 10; user = 7 }

abbrev pub token : Payload
token = record (payload 0 1 7) { session = some 10; session_iat = some 0 }

abbrev pub db : Db
db = record {
  whitelist = row ∷ [];
  tokens = [];
  users = alice ∷ [];
  emails = record { user = 7; email = 70; verified = true; primary = true } ∷ [];
  totp = [];
  recovery = [];
  social = [];
  next_pk = 2;
}
