-- ===== src/Session/Renewal.antt =====
-- What the tokens of a successful rotation say, and when a rotation succeeds.
use jwt_allauth.Base.{
  ℕ, ◌+◌, ◌≤◌, ◌<◌, ◌≡◌, refl, ◌∙◌, ap, inl, inr, Bool, true, false, some, arith, ==_refl,
  Option-cases, ok, delete, exists, first, count, count-pos_of_first, exists-delete-false,
}
use jwt_allauth.Claim.{attribute_map}
use jwt_allauth.Db.{RefreshTokenWhitelistModel, User, Db}
use jwt_allauth.Roles.{get_user_role}
use jwt_allauth.Settings.{Settings}
use jwt_allauth.Token.{
  Payload, Jwt, JwtLaws, Request, session_is_over, access_token, sync_user_claims, session_deadline,
  set_session_iat, conflicts,
}
use jwt_allauth.Token.Sync.{sync-session_iat, sync-session, sync-user_id, sync-role, sync_total}
use jwt_allauth.Session.{
  has_jti, has_id, has_pk, save_session, Tokens, admit, renew, hand_out, rotate, refresh_token,
}
use jwt_allauth.Session.Rotation.{
  rotate-ok, renew-session, renew-session_iat, renew-user_id, renew-jti,
}

module _ (cfg : Settings) (j : Jwt) (req : Request) where
  -- The caps, where the session has a deadline.
  renew-capped :
      (q : Payload) (start lifetime : ℕ)
      → cfg.session_lifetime ≡ some lifetime
      → q.session_iat ≡ some start
      → (renew cfg j req q).exp ≤ j.to_epoch (j.from_epoch start + lifetime)
  unfolding renew session_deadline
  renew-capped q start lifetime limited started = ground arith

  access-capped :
      (q : Payload) (start lifetime : ℕ)
      → cfg.session_lifetime ≡ some lifetime
      → q.session_iat ≡ some start
      → (access_token cfg j req.now q).exp ≤ j.to_epoch (j.from_epoch start + lifetime)
  unfolding access_token session_deadline
  access-capped q start lifetime limited started = ground arith

  before_deadline :
      (p : Payload) (start lifetime : ℕ)
      → cfg.session_lifetime ≡ some lifetime
      → p.session_iat ≡ some start
      → session_is_over cfg j req.now p ≡ false
      → req.now < j.from_epoch start + lifetime
  unfolding session_is_over
  before_deadline p start lifetime limited started alive = ground arith

  -- Rotation cannot extend a session: where an absolute lifetime is configured, a token that carries
  -- its session start is rotated only before the deadline, both tokens handed out expire by then,
  -- and the successor carries the same start.
  pub rotation_within_lifetime :
      (p : Payload) (s : Db) (t : Tokens) (s' : Db) (start lifetime : ℕ)
      → cfg.session_lifetime ≡ some lifetime
      → p.session_iat ≡ some start
      → rotate cfg j req p s ≡ (ok t, s')
      → (req.now < j.from_epoch start + lifetime)
        × (t.refresh.exp ≤ j.to_epoch (j.from_epoch start + lifetime))
        × (t.access.exp ≤ j.to_epoch (j.from_epoch start + lifetime))
        × (t.refresh.session_iat ≡ some start)
  rotation_within_lifetime p s t s' start lifetime limited started rotated =
      let (a, ad, out) = rotate-ok cfg j req p s t s' rotated in
      let kept : out.synced.session_iat ≡ some start =
        sync-session_iat cfg req s a.1 a.2 out.claims start (ad.session_iat start started) in
      (
        before_deadline p start lifetime limited started (ad.alive start started),
        rw out.refresh (renew-capped out.synced start lifetime limited kept),
        rw out.access (access-capped out.synced start lifetime limited kept),
        ap (λ (q : Payload). q.session_iat) out.refresh
            ∙ renew-session_iat cfg j req out.synced
            ∙ kept,
      )

  -- Privileges are read again: both tokens of a rotation carry the role that the owner of the
  -- consumed row has in the database now, and the owner is active.
  pub rotation_rereads_role :
      JwtLaws j
      → (p : Payload) (s : Db) (t : Tokens) (s' : Db) → rotate cfg j req p s ≡ (ok t, s')
      → (row : RefreshTokenWhitelistModel) × (user : User) × (first (has_jti p.jti) s.whitelist
          ≡ some row)
        × (first (has_id row.user) s.users ≡ some user)
        × (user.is_active ≡ true)
        × (t.access.role ≡ some (get_user_role user))
        × (t.refresh.role ≡ some (get_user_role user))
  unfolding access_token renew
  rotation_rereads_role laws p s t s' rotated =
      let (a, ad, out) = rotate-ok cfg j req p s t s' rotated in
      let synced = sync-role cfg req s a.1 a.2 out.claims in
      (
        a.0,
        a.1,
        ad.found,
        ad.owner,
        ad.active,
        rw out.access (ground (arith, laws.access_role req.now out.synced, synced)),
        rw out.refresh (ground (arith, synced)),
      )

  admit-succeeds :
      (p : Payload) (s : Db) (row : RefreshTokenWhitelistModel) (user : User)
      → first (has_jti p.jti) s.whitelist ≡ some row
      → row.enabled ≡ true
      → first (has_id row.user) s.users ≡ some user
      → user.is_active ≡ true
      → session_is_over cfg j req.now p ≡ false
      → (anchored : Payload) × (admit cfg j req p s ≡ (ok (row, user, anchored), s))
        × (anchored.session ≡ p.session)
        × (anchored.user_id ≡ p.user_id)
  unfolding admit
  admit-succeeds p s row user found enabled its active alive = elim (Option-cases p.session_iat) [
    | inl unknown ↦ (
      set_session_iat j req.now p,
      ground arith,
      unfold set_session_iat in refl,
      unfold set_session_iat in refl,
    )
    | inr (start, known) ↦ (p, ground arith, refl, refl)
  ]

  save-succeeds :
      (now jti session user : ℕ) (enabled : Bool) (s : Db)
      → exists (has_jti jti) s.whitelist ≡ false
      → exists (has_id user) s.users ≡ true
      → (save_session now jti session user enabled s).0 ≡ ok tt
  unfolding save_session
  save-succeeds now jti session user enabled s free there = rw (free, there) refl

  hand_out-succeeds :
      (s : Db) (row : RefreshTokenWhitelistModel) (user : User) (anchored q : Payload) (x owner : ℕ)
      → sync_user_claims cfg req s user anchored ≡ ok q
      → q.session ≡ some x
      → q.user_id ≡ some owner
      → 1 ≤ count (has_pk row.pk) s.whitelist
      → exists (has_jti req.fresh_jti) (delete (has_pk row.pk) s.whitelist) ≡ false
      → exists (has_id owner) s.users ≡ true
      → (t : Tokens) × ((hand_out cfg j req (row, user, anchored) s).0 ≡ ok t)
  unfolding hand_out
  hand_out-succeeds s row user anchored q x owner claims in_it owned here free there = (
    record { access = access_token cfg j req.now q; refresh = renew cfg j req q },
    ground (
      arith,
      save-succeeds req.now (renew cfg j req q).jti x owner true
          (record s { whitelist = delete (has_pk row.pk) s.whitelist })
          (rw (renew-jti cfg j req q) free) there,
      renew-session cfg j req q,
      renew-user_id cfg j req q,
    ),
  )

  -- A refresh hands out tokens where the row of the token is there and enabled, its owner is there
  -- and active, the token names a session and a user that is there, the session is not past its
  -- lifetime, the configured attribute names do not clash, and the jti that `uuid4` draws is free.
  pub rotation_succeeds :
      (p : Payload) (s : Db) (row : RefreshTokenWhitelistModel) (user : User) (x owner : ℕ)
      → first (has_jti p.jti) s.whitelist ≡ some row
      → row.enabled ≡ true
      → first (has_id row.user) s.users ≡ some user
      → user.is_active ≡ true
      → session_is_over cfg j req.now p ≡ false
      → p.session ≡ some x
      → p.user_id ≡ some owner
      → exists (has_id owner) s.users ≡ true
      → exists (has_jti req.fresh_jti) s.whitelist ≡ false
      → conflicts (attribute_map cfg.user_attributes) ≡ false
      → (t : Tokens) × ((refresh_token cfg j req (some p) s).0 ≡ ok t)
  rotation_succeeds p s row user x owner found enabled its active alive in_it owned there free
        names =
      let (anchored, admitted, same_session, same_owner) =
        admit-succeeds p s row user found enabled its active alive in
      let (q, claims) = sync_total cfg req s user anchored names in
      let (t, handed) =
        hand_out-succeeds s row user anchored q x owner claims
          (sync-session cfg req s user anchored claims x (same_session ∙ in_it))
          (sync-user_id cfg req s user anchored claims ∙ same_owner ∙ owned)
          (count-pos_of_first (has_jti p.jti) (has_pk row.pk) s.whitelist found (==_refl row.pk))
          (exists-delete-false (has_jti req.fresh_jti) (has_pk row.pk) s.whitelist free) there in
      (t, unfold refresh_token rotate in ground (arith, admitted, handed))
