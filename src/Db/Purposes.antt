-- ===== src/Db/Purposes.antt =====
-- The purposes of jwt_allauth/constants.py; `other` is any purpose of an application's own.
use jwt_allauth.Base.{ℕ, ◌+◌, ◌≡◌, Bool, true, ◌==◌, ==_refl}

pub data Purpose : Type 0 where
  pass_reset pass_reset_access pass_set pass_set_access : Purpose
  email_confirmation invitation : Purpose
  setup_challenge login_challenge setup_secret login_attempt : Purpose
  other : ℕ → Purpose

-- A number for each purpose, to compare them by.
abbrev code : Purpose → ℕ
code pass_reset = 0
code pass_reset_access = 1
code pass_set = 2
code pass_set_access = 3
code email_confirmation = 4
code invitation = 5
code setup_challenge = 6
code login_challenge = 7
code setup_secret = 8
code login_attempt = 9
code (other n) = 10 + n

-- `row.purpose == purpose`
abbrev pub same_purpose : Purpose → Purpose → Bool
same_purpose p q = code p == code q

pub same_purpose_refl : (p : Purpose) → same_purpose p p ≡ true
same_purpose_refl p = ==_refl (code p)
