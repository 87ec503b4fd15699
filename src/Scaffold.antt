-- ===== src/Scaffold.antt =====
-- The command `jwt-allauth startproject` (jwt_allauth/bin/jwt_allauth.py).
pub mod Text
pub mod Blocks
pub mod Edits
pub mod Files
pub mod Guards
pub mod Keys
pub mod Project
pub mod Signing
pub mod Totals
pub mod Generated
pub mod Created
pub mod Lists
