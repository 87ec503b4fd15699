-- ===== src/Claim.antt =====
-- The claims of a token, by name, and the configured user attributes
-- (JWT_ALLAUTH_USER_ATTRIBUTES of jwt_allauth/tokens/tokens.py).
use jwt_allauth.Base.{ℕ, ◌+◌, Bool, true, false, List, [], ◌∷◌, ◌==◌, if◌then◌else◌}

-- The reserved names, and `attribute n` for the n-th of all other names.
pub data Claim : Type 0 where
  token_type exp iat jti user_id session session_iat role email_verified : Claim
  attribute : ℕ → Claim

abbrev number : Claim → ℕ
number Claim.token_type = 0
number Claim.exp = 1
number Claim.iat = 2
number Claim.jti = 3
number Claim.user_id = 4
number Claim.session = 5
number Claim.session_iat = 6
number Claim.role = 7
number Claim.email_verified = 8
number (Claim.attribute n) = 9 + n

-- `name == other_name`
abbrev pub same_claim : Claim → Claim → Bool
same_claim a b = number a == number b

-- `name in RESERVED_CLAIMS`
abbrev pub is_reserved : Claim → Bool
is_reserved (Claim.attribute n) = false
is_reserved _ = true

-- A dot-path on the user object, split at its dots.
abbrev pub DotPath : Type 0
DotPath = List Claim

-- The setting: a mapping of claim names to paths, the legacy list of paths, or anything else.
pub data UserAttributes : Type 0 where
  mapping : List (Claim × DotPath) → UserAttributes
  legacy : List DotPath → UserAttributes
  unreadable : UserAttributes

-- `attr_path.split('.')[-1]`, of a path that is never empty
last_name : DotPath → Claim
last_name [] = Claim.attribute 0
last_name (c ∷ []) = c
last_name (c ∷ d ∷ rest) = last_name (d ∷ rest)

-- `d[name] = path`: a key that is there keeps its place.
insert_path : Claim → DotPath → List (Claim × DotPath) → List (Claim × DotPath)
insert_path name path [] = (name, path) ∷ []
insert_path name path ((other, old) ∷ d) =
    if same_claim name other then (other, path) ∷ d else (other, old) ∷ insert_path name path d

legacy_map : List (Claim × DotPath) → List DotPath → List (Claim × DotPath)
legacy_map d [] = d
legacy_map d (path ∷ paths) = legacy_map (insert_path (last_name path) path d) paths

-- `RefreshToken._attribute_map`
unfoldable pub attribute_map : UserAttributes → List (Claim × DotPath)
unfolding last_name insert_path legacy_map
attribute_map (mapping d) = d
attribute_map (legacy paths) = legacy_map [] paths
attribute_map unreadable = []
