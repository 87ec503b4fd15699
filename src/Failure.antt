-- ===== src/Failure.antt =====
-- What the handlers raise (jwt_allauth/exceptions.py, and the exceptions of Django REST Framework
-- and Simple JWT that the code raises or lets through).
use jwt_allauth.Base.{ℕ}
use jwt_allauth.Db.{User}

-- `RotationRejected` of jwt_allauth/token_refresh/serializers.py: its reason and its user.
pub data RotationRejected : Type 0 where
  replayed : RotationRejected
  disabled : User → RotationRejected
  session_expired : RotationRejected
  inactive_user : User → RotationRejected

pub data Failure : Type 0 where
  rejected : RotationRejected → Failure
  invalid_token token_error session_over not_verified_email : Failure
  incorrect_credentials no_active_account : Failure
  validation_error value_error key_error does_not_exist : Failure
  permission_denied not_authenticated csrf_failed integrity_error : Failure
  throttled : ℕ → Failure
  too_many_resets : Failure
  social_login_rejected social_email_unverified social_email_conflict : Failure
  social_local_account_unverified social_signup_closed social_signup_not_allowed : Failure
  social_already_connected social_disconnect_not_allowed : Failure
  social_provider_not_configured social_flow_not_supported social_token_invalid : Failure
  social_second_factor_pending : User → Failure
