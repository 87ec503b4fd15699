-- ===== src/Startup.antt =====
-- The application's startup, `JWTAllauthAppConfig` of jwt_allauth/apps.py: the settings of the project
-- are checked and filled in.
pub mod Project
pub mod Ready
pub mod Defaults
pub mod Passes
pub mod Settled
pub mod Checks
