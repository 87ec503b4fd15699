-- ===== src/Token.antt =====
-- `RefreshToken` of jwt_allauth/tokens/tokens.py: the claims, the deadline of a session and the
-- claims that are read again from the user. Simple JWT itself is the parameter `Jwt`.
pub mod Access
pub mod Identity
pub mod Attributes
pub mod Sync
use jwt_allauth.Base.{
  ℕ, ◌+◌, min, ◌≡◌, Bool, true, false, not, ◌&&◌, ◌||◌, Option, none, some, List, [], ◌∷◌, ◌++◌,
  leb, ◌==◌, is_some, if◌then◌else◌, Result, ok, err, exists,
}
use jwt_allauth.Claim.{Claim, same_claim, is_reserved, DotPath, attribute_map}
use jwt_allauth.Db.{User, Db, Purpose}
use jwt_allauth.Failure.{Failure, value_error}
use jwt_allauth.Roles.{get_user_role}
use jwt_allauth.Settings.{Settings}

-- The payload of a token. Simple JWT writes `token_type`, `exp`, `iat` and `jti` into every token
-- that it builds; a claim that a token may lack is an Option.
pub record Payload : Type 0 where
  pub jti : ℕ
  pub exp : ℕ
  pub iat : ℕ
  pub user_id : Option ℕ
  pub session : Option ℕ
  pub session_iat : Option ℕ
  pub role : Option ℕ
  pub email_verified : Option Bool
  pub attributes : List (ℕ × ℕ)
  pub for_user : Option ℕ
  pub one_time_permission : Option Purpose

-- Simple JWT. `from_epoch` and `to_epoch` go between seconds and instants, `exp_at` is the claim
-- that `set_exp` writes at an instant, `new_token` is `Token.for_user`, `blank_token` is a token that is
-- made without a user, and `derive_access` is the property `access_token` of its RefreshToken.
pub record Jwt : Type 0 where
  pub from_epoch : ℕ → ℕ
  pub to_epoch : ℕ → ℕ
  pub exp_at : ℕ → ℕ
  pub new_token : ℕ → ℕ → ℕ → Payload
  pub blank_token : ℕ → ℕ → Payload
  pub derive_access : ℕ → Payload → Payload

-- What the code relies on of Simple JWT.
pub record JwtLaws (j : Jwt) : Type 0 where
  pub new_jti : (now jti user : ℕ) → (j.new_token now jti user).jti ≡ jti
  pub new_user : (now jti user : ℕ) → (j.new_token now jti user).user_id ≡ some user
  pub access_session : (now : ℕ) (p : Payload) → (j.derive_access now p).session ≡ p.session
  pub access_role : (now : ℕ) (p : Payload) → (j.derive_access now p).role ≡ p.role
  pub access_user : (now : ℕ) (p : Payload) → (j.derive_access now p).user_id ≡ p.user_id
  pub access_for_user : (now : ℕ) (p : Payload) → (j.derive_access now p).for_user ≡ p.for_user
  pub access_permission :
      (now : ℕ) (p : Payload) → (j.derive_access now p).one_time_permission ≡ p.one_time_permission

-- What a request brings: the clock, the identifiers that `uuid4` gives while it is served, and
-- the value of a dot-path on a user (none if it is missing, `None`, callable or raises).
pub record Request : Type 0 where
  pub now : ℕ
  pub fresh_jti : ℕ
  pub fresh_session : ℕ
  pub resolve : ℕ → DotPath → Option ℕ

-- `set_session` and `set_session_iat`
unfoldable pub set_session : ℕ → Payload → Payload
set_session id p = record p { session = some id }

unfoldable pub set_session_iat : Jwt → ℕ → Payload → Payload
set_session_iat j now p = record p { session_iat = some (j.to_epoch now) }

unfoldable pub session_deadline : Settings → Jwt → Payload → Option ℕ
session_deadline cfg j p = elim cfg.session_lifetime [
  | none ↦ none
  | some lifetime ↦ elim p.session_iat [ none ↦ none | some t ↦ some (j.from_epoch t + lifetime) ]
]

unfoldable pub session_is_over : Settings → Jwt → ℕ → Payload → Bool
unfolding session_deadline
session_is_over cfg j now p = elim (session_deadline cfg j p) [
  | none ↦ false
  | some deadline ↦ leb deadline now
]

unfoldable pub cap_exp_to_session : Settings → Jwt → Payload → Payload
unfolding session_deadline
cap_exp_to_session cfg j p = elim (session_deadline cfg j p) [
  | none ↦ p
  | some deadline ↦ record p { exp = min p.exp (j.to_epoch deadline) }
]

-- The property `access_token`: Simple JWT's, capped at the deadline of this refresh token.
unfoldable pub access_token : Settings → Jwt → ℕ → Payload → Payload
unfolding session_deadline
access_token cfg j now p =
    let access = j.derive_access now p in
    elim (session_deadline cfg j p) [
      | none ↦ access
      | some deadline ↦ record access { exp = min access.exp (j.to_epoch deadline) }
    ]

-- The attribute claims, as a dict of numbers.
unfoldable pub lookup_attribute : ℕ → List (ℕ × ℕ) → Option ℕ
lookup_attribute n [] = none
lookup_attribute n ((m, v) ∷ d) = if n == m then some v else lookup_attribute n d

unfoldable pub remove_attribute : ℕ → List (ℕ × ℕ) → List (ℕ × ℕ)
remove_attribute n [] = []
remove_attribute n ((m, v) ∷ d) =
    let rest = remove_attribute n d in if n == m then rest else (m, v) ∷ rest

-- `name in self.payload`
unfoldable pub has_claim : Claim → Payload → Bool
unfolding lookup_attribute
has_claim Claim.user_id p = is_some p.user_id
has_claim Claim.session p = is_some p.session
has_claim Claim.session_iat p = is_some p.session_iat
has_claim Claim.role p = is_some p.role
has_claim Claim.email_verified p = is_some p.email_verified
has_claim (Claim.attribute n) p = is_some (lookup_attribute n p.attributes)
has_claim _ p = true

-- `self.payload[name] = value`, reached only for a claim that the payload lacks; the callers have
-- set the role, the verification and the owner before.
unfoldable pub set_claim : Claim → ℕ → Payload → Payload
set_claim Claim.session v p = record p { session = some v }
set_claim Claim.session_iat v p = record p { session_iat = some v }
set_claim (Claim.attribute n) v p = record p { attributes = (n, v) ∷ p.attributes }
set_claim _ v p = p

-- One round of the loop of `set_user_attributes`.
unfoldable pub write_attribute : Claim → Option ℕ → Payload → Payload
unfolding has_claim set_claim
write_attribute name none p = p
write_attribute name (some value) p =
    if same_claim name Claim.role || has_claim name p then p else set_claim name value p

unfoldable pub write_attributes : (DotPath → Option ℕ) → List (Claim × DotPath) → Payload → Payload
write_attributes resolve [] p = p
write_attributes resolve ((name, path) ∷ rest) p =
    write_attributes resolve rest (write_attribute name (resolve path) p)

-- `duplicates or reserved_conflicts`
unfoldable pub conflicts : List (Claim × DotPath) → Bool
conflicts [] = false
conflicts ((name, path) ∷ rest) =
    same_claim name Claim.role || exists (λ e. same_claim name e.0) rest || conflicts rest

unfoldable pub set_user_attributes : Settings → Request → User → Payload → Result Failure Payload
unfolding conflicts write_attributes
set_user_attributes cfg req user p =
    let names = attribute_map cfg.user_attributes in
    if conflicts names then err value_error else ok (write_attributes (req.resolve user.id) names p)

unfoldable pub set_user_role : User → Payload → Payload
set_user_role user p = record p { role = some (get_user_role user) }

-- `is_email_verified` of jwt_allauth/utils.py, which does not raise here
unfoldable pub is_email_verified : Db → ℕ → Bool
is_email_verified db user = exists (λ e. e.user == user && e.verified) db.emails

unfoldable pub set_email_verified : Db → User → Option Bool → Payload → Payload
unfolding is_email_verified
set_email_verified db user verified p = record p {
  email_verified =
      some (elim verified [ none ↦ is_email_verified db user.id | some answer ↦ answer ]);
}

-- The loop of `sync_user_claims` that drops the configured claims.
unfoldable pub drop_configured : List (Claim × DotPath) → Payload → Payload
unfolding remove_attribute
drop_configured [] p = p
drop_configured ((Claim.attribute n, path) ∷ rest) p =
    drop_configured rest (record p { attributes = remove_attribute n p.attributes })
drop_configured ((name, path) ∷ rest) p = drop_configured rest p

unfoldable pub sync_user_claims : Settings → Request → Db → User → Payload → Result Failure Payload
unfolding drop_configured set_user_role set_email_verified set_user_attributes
sync_user_claims cfg req db user p = set_user_attributes cfg req user (
    set_email_verified db user none
      (set_user_role user (drop_configured (attribute_map cfg.user_attributes) p)))
