-- ===== src/Delivery.antt =====
-- How a refresh token travels: `set_refresh_token_cookie` and `build_token_response` of
-- jwt_allauth/utils.py, `TokenRefreshView.post` of jwt_allauth/token_refresh/views.py,
-- `LogoutView.logout` of jwt_allauth/logout/views.py and `LoginView.post` of jwt_allauth/login/views.py.
-- What a token is written as is the parameter W, which Codec writes and reads.
pub mod Journey
use jwt_allauth.Base.{
  ℕ, Bool, true, false, not, Option, none, some, if◌then◌else◌, Result, ok, err, Exec, pure, raise,
  or_raise, ◌>>=◌, ◌>>◌,
}
use jwt_allauth.Db.{User, Db}
use jwt_allauth.Failure.{Failure, invalid_token, token_error, validation_error}
use jwt_allauth.Mfa.Gate.{Challenge, LoginData, challenge, tokens, login}
use jwt_allauth.Session.{Tokens, refresh_token, logout}
use jwt_allauth.Settings.{Settings, get_cookie_max_age, get_cookie_secure}
use jwt_allauth.Token.{Payload, Jwt, Request}

-- `str(token)`, and what Simple JWT makes of a text, which it may refuse.
pub record Codec (W : Type 0) : Type 0 where
  pub encode : Payload → W
  pub decode : W → Option Payload

pub record Cookie (W : Type 0) : Type 0 where
  pub value : W
  pub httponly : Bool
  pub secure : Bool
  pub samesite : ℕ
  pub max_age : Option ℕ
  pub path : ℕ

-- A response with tokens: the two fields of the body, and the cookie.
pub record TokenResponse (W : Type 0) : Type 0 where
  pub access : Option Payload
  pub refresh : Option W
  pub cookie : Option (Cookie W)

-- The cookie and the field `refresh` of the body of a request. An empty cookie is none.
pub record Incoming (W : Type 0) : Type 0 where
  pub cookie : Option W
  pub refresh : Option W

-- `set_refresh_token_cookie`; no caller overrides its defaults
unfoldable pub set_refresh_token_cookie :
    {W : Type 0} → Settings → W → TokenResponse W → TokenResponse W
set_refresh_token_cookie cfg token response = record response {
  cookie = some (record {
    value = token;
    httponly = cfg.cookie_http_only;
    secure = get_cookie_secure cfg;
    samesite = cfg.cookie_same_site;
    max_age = get_cookie_max_age cfg;
    path = cfg.cookie_path;
  });
}

-- `build_token_response`, for both tokens
unfoldable pub build_token_response : {W : Type 0} → Settings → Codec W → Tokens → TokenResponse W
unfolding set_refresh_token_cookie
build_token_response cfg c t =
    let response : TokenResponse _ = record {
      access = some t.access;
      refresh = if not cfg.as_cookie then some (c.encode t.refresh) else none;
      cookie = none;
    } in
    if cfg.as_cookie then set_refresh_token_cookie cfg (c.encode t.refresh) response else response

-- Where the two views that take a refresh token look for it.
unfoldable pub presented : {W : Type 0} → Settings → Incoming W → Option W
presented cfg http = if cfg.as_cookie then http.cookie else http.refresh

-- `except TokenError as e: raise InvalidToken`
abbrev as_invalid : {A : Type 0} → Exec Db Failure A → Exec Db Failure A
as_invalid m s =
    let (r, s') = m s in
    elim r [
      | ok a ↦ (ok a, s')
      | err e ↦ elim e [ token_error ↦ (err invalid_token, s') | other ↦ (err other, s') ]
    ]

-- `TokenRefreshView.post`; the field `refresh` of the serializer is required
unfoldable pub refresh_view :
    {W : Type 0}
    → Settings
    → Jwt
    → Request
    → Codec W
    → Incoming W
    → Exec Db Failure (TokenResponse W)
unfolding presented build_token_response
refresh_view cfg j req c http = do
  raw ← or_raise (presented cfg http) validation_error
  t ← as_invalid (refresh_token cfg j req (c.decode raw))
  pure (build_token_response cfg c t)

-- The answers of `LogoutView.logout`.
pub data LogoutResponse : Type 0 where
  cookie_not_found logged_out not_a_token : LogoutResponse

abbrev logout_answer : Result Failure (Unit {0}) × Db → Result Failure LogoutResponse × Db
logout_answer (ok _, s) = (ok logged_out, s)
logout_answer (err token_error, s) = (ok not_a_token, s)
logout_answer (err invalid_token, s) = (ok not_a_token, s)
logout_answer (err e, s) = (err e, s)

-- `LogoutView.logout`, for the user that the access token names
unfoldable pub logout_view :
    {W : Type 0} → Settings → Codec W → Option ℕ → Incoming W → Exec Db Failure LogoutResponse
unfolding presented
logout_view cfg c caller http s = elim (presented cfg http) [
  | none ↦ if cfg.as_cookie then (ok cookie_not_found, s) else (err validation_error, s)
  | some raw ↦ logout_answer (logout caller (c.decode raw) s)
]

-- The answers of `LoginView.post`.
pub data LoginResponse (W : Type 0) : Type 0 where
  pending : Challenge → LoginResponse W
  granted : TokenResponse W → LoginResponse W

unfoldable pub answer_login : {W : Type 0} → Settings → Codec W → LoginData → LoginResponse W
unfolding build_token_response
answer_login cfg c (challenge pending_one) = pending pending_one
answer_login cfg c (tokens t) = granted (build_token_response cfg c t)

unfoldable pub login_view :
    {W : Type 0}
    → Settings
    → Bool
    → Jwt
    → Request
    → Codec W
    → ℕ
    → Option User
    → Exec Db Failure (LoginResponse W)
login_view cfg available j req c fresh authenticated = do
  data_ ← as_invalid (login cfg available j req fresh authenticated)
  pure (answer_login cfg c data_)
