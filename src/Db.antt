-- ===== src/Db.antt =====
-- The tables that the library reads and writes (jwt_allauth/tokens/models.py, jwt_allauth/models.py
-- and, of django-allauth, the columns of EmailAddress and Authenticator that the code reads).
-- A table is the list of its rows in the order of the primary key. Identifiers, digests and
-- addresses are only compared, so they are numbers; an instant is in microseconds.
mod Purposes
pub use Purposes.*
use jwt_allauth.Base.{ℕ, ◌+◌, ◌*◌, Bool, Option, List}

abbrev pub second : ℕ
second = 1000000

abbrev pub day : ℕ
day = 86400 * second

-- A row of the refresh token whitelist. The device columns of BaseToken are not kept.
pub record RefreshTokenWhitelistModel : Type 0 where
  pub pk : ℕ
  pub created : ℕ
  pub jti : ℕ
  pub enabled : Bool
  pub session : ℕ
  pub user : ℕ

pub record GenericTokenModel : Type 0 where
  pub pk : ℕ
  pub created : ℕ
  pub user : ℕ
  pub token : ℕ
  pub purpose : Purpose

-- The `role` attribute of a user: the model has none, or it holds `None`, or a number.
pub data RoleAttribute : Type 0 where
  missing null : RoleAttribute
  stored : ℕ → RoleAttribute

pub record User : Type 0 where
  pub id : ℕ
  pub is_active : Bool
  pub is_staff : Bool
  pub is_superuser : Bool
  pub role : RoleAttribute
  pub usable_password : Bool
  pub last_login : Option ℕ

pub record EmailAddress : Type 0 where
  pub user : ℕ
  pub email : ℕ
  pub verified : Bool
  pub primary : Bool

-- A connection: the account of a provider, and the user that it signs in.
pub record SocialAccount : Type 0 where
  pub pk : ℕ
  pub provider : ℕ
  pub uid : ℕ
  pub user : ℕ

pub record Db : Type 0 where
  pub whitelist : List RefreshTokenWhitelistModel
  pub tokens : List GenericTokenModel
  pub users : List User
  pub emails : List EmailAddress
  -- The owners of the authenticators of type TOTP, and of those of type recovery codes.
  pub totp : List ℕ
  pub recovery : List ℕ
  pub social : List SocialAccount
  pub next_pk : ℕ
