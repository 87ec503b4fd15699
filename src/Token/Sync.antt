-- ===== src/Token/Sync.antt =====
-- What `sync_user_claims` changes, and what it leaves (jwt_allauth/tokens/tokens.py).
use jwt_allauth.Base.{ap, subst, ℕ, ◌≡◌, refl, ◌∙◌, sym, false, none, some, arith, ok}
use jwt_allauth.Claim.{DotPath, attribute_map}
use jwt_allauth.Db.{User, Db}
use jwt_allauth.Roles.{get_user_role}
use jwt_allauth.Settings.{Settings}
use jwt_allauth.Token.{
  Payload, Request, write_attributes, lookup_attribute, conflicts, drop_configured,
  set_user_attributes, sync_user_claims, is_email_verified, set_email_verified, set_user_role,
}
use jwt_allauth.Token.Identity.{
  SameIdentity, write_attributes-same, set_user_attributes-same, drop_configured-same,
}
use jwt_allauth.Token.Attributes.{path_of, value_at, lookup-write_attributes, drop_configured_drops}

-- The payload on which `sync_user_claims` writes the attributes.
abbrev synced_base : Settings → Db → User → Payload → Payload
synced_base cfg db user p =
    set_email_verified db user none
      (set_user_role user (drop_configured (attribute_map cfg.user_attributes) p))

sync_user_claims-eq :
    (cfg : Settings) (req : Request) (db : Db) (user : User) (p : Payload) {q : Payload}
    → sync_user_claims cfg req db user p ≡ ok q
    → (conflicts (attribute_map cfg.user_attributes) ≡ false)
      × (write_attributes
            (req.resolve user.id)
            (attribute_map cfg.user_attributes)
            (synced_base cfg db user p)
          ≡ q)
unfolding sync_user_claims
sync_user_claims-eq cfg req db user p h = (ground arith, ground arith)

module _ (cfg : Settings) (req : Request) (db : Db) (user : User) (p : Payload) {q : Payload}
    (synced : sync_user_claims cfg req db user p ≡ ok q) where
  base-same : SameIdentity (synced_base cfg db user p) q
  base-same =
      subst (SameIdentity (synced_base cfg db user p))
        (sync_user_claims-eq cfg req db user p synced).1
        (write_attributes-same (req.resolve user.id) (attribute_map cfg.user_attributes)
          (synced_base cfg db user p))

  -- The claims that name the session are those of the presented token.
  pub sync-session : (x : ℕ) → p.session ≡ some x → q.session ≡ some x
  unfolding set_email_verified set_user_role
  sync-session x h =
      base-same.session x ((drop_configured-same (attribute_map cfg.user_attributes) p).session x h)

  pub sync-session_iat : (t : ℕ) → p.session_iat ≡ some t → q.session_iat ≡ some t
  unfolding set_email_verified set_user_role
  sync-session_iat t h =
      base-same.session_iat t
        ((drop_configured-same (attribute_map cfg.user_attributes) p).session_iat t h)

  pub sync-user_id : q.user_id ≡ p.user_id
  unfolding set_email_verified set_user_role
  sync-user_id =
      base-same.user_id ∙ (drop_configured-same (attribute_map cfg.user_attributes) p).user_id

  -- Re-reading the claims brings the role and the verification state up to the database, and every
  -- configured attribute claim up to the user: to its value, or away if the user has none now.
  pub sync_refreshes_claims :
      (n : ℕ) (path : DotPath)
      → path_of n (attribute_map cfg.user_attributes) ≡ some path
      → (q.role ≡ some (get_user_role user))
        × (q.email_verified ≡ some (is_email_verified db user.id))
        × (lookup_attribute n q.attributes ≡ req.resolve user.id path)
  unfolding set_email_verified set_user_role
  sync_refreshes_claims n path configured = (
    base-same.role,
    base-same.email_verified,
    rw (← facts.1) (
        lookup-write_attributes (req.resolve user.id) n (attribute_map cfg.user_attributes)
          (synced_base cfg db user p) facts.0
          (drop_configured_drops n (attribute_map cfg.user_attributes) p path configured)
        ∙ ap (value_at (req.resolve user.id)) configured),
  )
    where
      facts :
          (conflicts (attribute_map cfg.user_attributes) ≡ false)
          × (write_attributes
                (req.resolve user.id)
                (attribute_map cfg.user_attributes)
                (synced_base cfg db user p)
              ≡ q)
      facts = sync_user_claims-eq cfg req db user p synced

pub set_user_attributes-keeps :
    (cfg : Settings) (req : Request) (user : User) (p : Payload) {q : Payload}
    → set_user_attributes cfg req user p ≡ ok q
    → SameIdentity p q
set_user_attributes-keeps cfg req user p h =
    subst (SameIdentity p) (sym (set_user_attributes-same cfg req user p h))
      (write_attributes-same (req.resolve user.id) (attribute_map cfg.user_attributes) p)

pub sync-role :
    (cfg : Settings) (req : Request) (db : Db) (user : User) (p : Payload) {q : Payload}
    → sync_user_claims cfg req db user p ≡ ok q
    → q.role ≡ some (get_user_role user)
unfolding set_email_verified set_user_role
sync-role cfg req db user p synced = (base-same cfg req db user p synced).role

-- Where the configured names do not clash, the claims are always read again.
pub sync_total :
    (cfg : Settings) (req : Request) (db : Db) (user : User) (p : Payload)
    → conflicts (attribute_map cfg.user_attributes) ≡ false
    → (q : Payload) × (sync_user_claims cfg req db user p ≡ ok q)
unfolding sync_user_claims
sync_total cfg req db user p h = (
  write_attributes (req.resolve user.id) (attribute_map cfg.user_attributes)
      (synced_base cfg db user p),
  rw h refl,
)
