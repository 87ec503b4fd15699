-- ===== src/Scaffold/Blocks.antt =====
-- The settings that `_modify_settings` of jwt_allauth/bin/jwt_allauth.py appends, line by line.

use jwt_allauth.Base.{[], ◌∷◌}
use jwt_allauth.Scaffold.Text.{Chars, lines}

unfoldable pub auth_backends : Chars
unfolding lines
auth_backends = lines (
    "" ∷ "# JWT Allauth user model" ∷ "AUTH_USER_MODEL = 'jwt_allauth.JAUser'" ∷ ""
    ∷ "# JWT Allauth adapter" ∷ "ACCOUNT_ADAPTER = 'jwt_allauth.adapter.JWTAllAuthAdapter'" ∷ ""
    ∷ "# Login configuration" ∷ "ACCOUNT_LOGIN_METHODS = {'email'}"
    ∷ "ACCOUNT_SIGNUP_FIELDS = ['email*', 'password1*', 'password2*']" ∷ ""
    ∷ "# Authentication backends" ∷ "AUTHENTICATION_BACKENDS = ("
    ∷ "    # Needed to login by username in Django admin, regardless of `allauth`"
    ∷ "    \"django.contrib.auth.backends.ModelBackend\","
    ∷ "    # `allauth` specific authentication methods, such as login by e-mail"
    ∷ "    \"allauth.account.auth_backends.AuthenticationBackend\"" ∷ ")" ∷ ""
    ∷ "# Django Rest Framework settings" ∷ "REST_FRAMEWORK = {"
    ∷ "    'DEFAULT_AUTHENTICATION_CLASSES': ("
    ∷ "        'jwt_allauth.authentication.JWTAllAuthAuthentication'," ∷ "    )" ∷ "}" ∷ ""
    ∷ "from datetime import timedelta" ∷ "" ∷ "# JWT settings"
    ∷ "JWT_ALLAUTH_ACCESS_TOKEN_LIFETIME = timedelta(minutes=30)"
    ∷ "JWT_ALLAUTH_REFRESH_TOKEN_LIFETIME = timedelta(days=14)" ∷ ""
    ∷ "# Sessions stay alive for as long as they are used and expire after"
    ∷ "# JWT_ALLAUTH_REFRESH_TOKEN_LIFETIME of inactivity. Uncomment to also cap how long a"
    ∷ "# session may live in total, no matter how often it is refreshed."
    ∷ "# JWT_ALLAUTH_SESSION_LIFETIME = timedelta(days=90)" ∷ [])

unfoldable pub rs256_settings : Chars
unfolding lines
rs256_settings = lines (
    "" ∷ "# JWT asymmetric signing (RS256)"
    ∷ "# Keys are stored in keys/ directory (excluded from version control)" ∷ "SIMPLE_JWT = {"
    ∷ "    \"ALGORITHM\": \"RS256\","
    ∷ "    \"SIGNING_KEY\": (BASE_DIR / \"keys\" / \"private.pem\").read_text(),"
    ∷ "    \"VERIFYING_KEY\": (BASE_DIR / \"keys\" / \"public.pem\").read_text()," ∷ "}" ∷ [])

unfoldable pub hs256_settings : Chars
unfolding lines
hs256_settings = lines (
    "" ∷ "# JWT symmetric signing (HS256) — consider upgrading to RS256 for production."
    ∷ "# See https://jwt-allauth.readthedocs.io/ for details."
    ∷ "# JWT_ALLAUTH_SECRET_KEY = 'your-dedicated-jwt-secret-here'" ∷ [])

unfoldable pub mfa_settings : Chars
unfolding lines
mfa_settings = lines (
    "" ∷ "" ∷ "# MFA configuration" ∷ "JWT_ALLAUTH_MFA_TOTP_MODE = 'optional'"
    ∷ "JWT_ALLAUTH_TOTP_ISSUER = None" ∷ "" ∷ "# Cache configuration (required for MFA)"
    ∷ "CACHES = {" ∷ "    'default': {"
    ∷ "        'BACKEND': 'django.core.cache.backends.locmem.LocMemCache',"
    ∷ "        'LOCATION': 'unique-snowflake'," ∷ "    }" ∷ "}" ∷ [])

unfoldable pub social_settings : Chars
unfolding lines
social_settings = lines (
    "" ∷ "" ∷ "# Social authentication"
    ∷ "# The endpoints live under /jwt-allauth/social/ and need `pip install"
    ∷ "# django-jwt-allauth[social]`. Fill in a provider to switch them on. Read the client id"
    ∷ "# and secret from the environment; never commit them." ∷ "# SOCIALACCOUNT_PROVIDERS = {"
    ∷ "#     'google': {" ∷ "#         'APPS': [{"
    ∷ "#             'client_id': os.environ.get('GOOGLE_CLIENT_ID', ''),"
    ∷ "#             'secret': os.environ.get('GOOGLE_CLIENT_SECRET', '')," ∷ "#         }],"
    ∷ "#     }," ∷ "# }" ∷ ""
    ∷ "# A provider that vouches for an address already held by an established local account"
    ∷ "# signs that account in, keeping its password. Set to False to refuse instead, or to a"
    ∷ "# list of provider ids to allow it only for the providers you trust."
    ∷ "# JWT_ALLAUTH_SOCIAL_EMAIL_LINKING = True" ∷ "" ∷ "# User invitations"
    ∷ "# An admin creates the account and the invitee sets their own password. This adds the"
    ∷ "# endpoints and leaves the public sign-up alone; use"
    ∷ "# JWT_ALLAUTH_ADMIN_MANAGED_REGISTRATION instead to have invitations *replace* it."
    ∷ "# JWT_ALLAUTH_INVITATIONS = True"
    ∷ "# PASSWORD_SET_REDIRECT = '/set-password/'  # your UI; omit to use the built-in form" ∷ [])

unfoldable pub email_settings : Chars
unfolding lines
email_settings = lines (
    "" ∷ "# Email configuration" ∷ "EMAIL_VERIFICATION = True"
    ∷ "EMAIL_BACKEND = 'django.core.mail.backends.smtp.EmailBackend'"
    ∷ "EMAIL_HOST = os.environ.get('EMAIL_HOST', 'smtp.example.com')  # Configure or override via environment"
    ∷ "EMAIL_PORT = int(os.environ.get('EMAIL_PORT', 587))"
    ∷ "EMAIL_USE_TLS = os.environ.get('EMAIL_USE_TLS', 'True') == 'True'"
    ∷ "EMAIL_HOST_USER = os.environ.get('EMAIL_HOST_USER') or f'dummy-user-{secrets.token_hex(4)}'"
    ∷ "EMAIL_HOST_PASSWORD = os.environ.get('EMAIL_HOST_PASSWORD') or secrets.token_urlsafe(16)"
    ∷ "DEFAULT_FROM_EMAIL = os.environ.get('DEFAULT_FROM_EMAIL', 'your-email@example.com')" ∷ ""
    ∷ "# JWT Allauth settings"
    ∷ "EMAIL_VERIFIED_REDIRECT = None  # URL to redirect after email verification"
    ∷ "PASSWORD_RESET_REDIRECT = None  # URL for password reset form" ∷ [])
