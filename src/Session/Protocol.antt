-- ===== src/Session/Protocol.antt =====
-- The sessions as a state machine: what the endpoints and the rest of the program do to the
-- whitelist, one step for each handler that holds the lock, in any order. A refresh token that is
-- presented has been issued, since Simple JWT verifies its signature, and `uuid4` never repeats.
use jwt_allauth.Base.{
  ℕ, ◌≤◌, ◌≡◌, ◌≢◌, ◌⊎◌, Bool, false, Option, none, some, List, [], ◌∷◌, Result, ok, err, All,
  delete, exists,
}
use jwt_allauth.Db.{RefreshTokenWhitelistModel, User, Db}
use jwt_allauth.Failure.{Failure}
use jwt_allauth.Revocation.{revoke_on_credential_change}
use jwt_allauth.Session.{
  in_session, for_user, Tokens, refresh_token, logout, logout_all, enable_session,
}
use jwt_allauth.Settings.{Settings}
use jwt_allauth.Token.{Payload, Jwt, Request}

pub record World : Type 0 where
  pub db : Db
  pub issued : List Payload

abbrev pub In : {A : Type 0} → A → List A → Type 0
In a [] = ⊥
In a (x ∷ xs) = (a ≡ x) ⊎ In a xs

abbrev pub IsGenuine : Option Payload → List Payload → Type 0
IsGenuine none issued = Unit
IsGenuine (some p) issued = In p issued

-- The identifiers that the request draws have not been used.
pub record IsFresh (req : Request) (w : World) : Type 0 where
  pub jti : All (λ p. p.jti ≢ req.fresh_jti) w.issued
  pub session : All (λ p. p.session ≢ some req.fresh_session) w.issued
  pub unused : exists (in_session req.fresh_session) w.db.whitelist ≡ false

abbrev pub issue : Result Failure Payload → List Payload → List Payload
issue (ok t) issued = t ∷ issued
issue (err e) issued = issued

abbrev pub refresh_of : Result Failure Tokens → Result Failure Payload
refresh_of (ok t) = ok t.refresh
refresh_of (err e) = err e

-- The world after a login, and after a refresh, whether they succeed or raise.
abbrev pub after_open : Settings → Jwt → Request → Bool → Option Bool → User → World → World
after_open cfg j req enabled verified user w =
    let (r, s') = for_user cfg j req enabled verified user w.db in
    record { db = s'; issued = issue r w.issued }

abbrev pub after_refresh : Settings → Jwt → Request → Option Payload → World → World
after_refresh cfg j req decoded w =
    let (r, s') = refresh_token cfg j req decoded w.db in
    record { db = s'; issued = issue (refresh_of r) w.issued }

pub data Step (cfg : Settings) (j : Jwt) (w : World) : World → Type 0 where
  open_session :
      (req : Request) (enabled : Bool) (verified : Option Bool) (user : User)
      → IsFresh req w
      → Step cfg j w (after_open cfg j req enabled verified user w)
  refresh :
      (req : Request) (decoded : Option Payload)
      → IsFresh req w
      → IsGenuine decoded w.issued
      → Step cfg j w (after_refresh cfg j req decoded w)
  log_out :
      (caller : Option ℕ) (decoded : Option Payload)
      → IsGenuine decoded w.issued
      → Step cfg j w (record w { db = (logout caller decoded w.db).1 })
  log_out_all : (user : ℕ) → Step cfg j w (record w { db = (logout_all user w.db).1 })
  change_credentials :
      (user : ℕ) → Step cfg j w (record w { db = revoke_on_credential_change cfg user w.db })
  confirm_address : (user : ℕ) → Step cfg j w (record w { db = enable_session user w.db })
  -- Any other code, such as the deletion of rows that are past their retention or of a user: it
  -- takes rows away or leaves the whitelist alone, and does what it likes to the other tables. A
  -- sequence of primary keys is never set back.
  elsewhere :
      (q : RefreshTokenWhitelistModel → Bool) (s' : Db)
      → s'.whitelist ≡ delete q w.db.whitelist
      → w.db.next_pk ≤ s'.next_pk
      → Step cfg j w (record w { db = s' })

pub data Reach (cfg : Settings) (j : Jwt) (w : World) : World → Type 0 where
  here : Reach cfg j w w
  next : {u v : World} → Reach cfg j w u → Step cfg j u v → Reach cfg j w v
