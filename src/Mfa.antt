-- ===== src/Mfa.antt =====
-- The second factor: challenges, secrets and failed attempts, the gate in front of a session and
-- the endpoints that verify a code (jwt_allauth/mfa).
pub mod Storage
pub mod Secret
pub mod Attempts
pub mod Lockout
pub mod Gate
pub mod Verify
pub mod Enrol
pub mod Deactivate
