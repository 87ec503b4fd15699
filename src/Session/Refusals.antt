-- ===== src/Session/Refusals.antt =====
-- The error paths of a refresh: why it is refused, what the caller is told and what is left in the
-- database (`TokenRefreshSerializer.validate` and `reject` of jwt_allauth/token_refresh/serializers.py).
use jwt_allauth.Base.{
  ℕ, ◌≤◌, ◌≡◌, ◌⊎◌, refl, ◌∙◌, sym, ap, subst, inl, inr, true, false, Option, none, some, arith,
  Bool-cases, Option-cases, Result-cases, err, ==_refl, delete, first, count, count-pos_of_first,
  if◌then◌else◌,
}
use jwt_allauth.Db.{RefreshTokenWhitelistModel, User, Db}
use jwt_allauth.Failure.{
  Failure, RotationRejected, rejected, replayed, disabled, session_expired, inactive_user,
  invalid_token, token_error, session_over, not_verified_email, validation_error, key_error,
  value_error, does_not_exist,
}
use jwt_allauth.Settings.{Settings}
use jwt_allauth.Token.{
  session_deadline, Payload, Jwt, Request, is_email_verified, session_is_over, sync_user_claims,
  set_user_attributes,
}
use jwt_allauth.Session.{
  has_jti, has_pk, has_id, save_session, Admission, admit, hand_out, rotate, reject, close_session,
  close_sessions_of, refresh_token, renew,
}
use jwt_allauth.Session.Rotation.{Admitted, admit-Admitted, admit-state}
use jwt_allauth.Session.Steps.{refresh_token-rejected}

module _ (cfg : Settings) (j : Jwt) (req : Request) where
  -- Why the checks of a rotation refuse a token, and the failure that they raise.
  pub data Turned (p : Payload) (s : Db) (f : Failure) : Type 0 where
    reused : first (has_jti p.jti) s.whitelist ≡ none → f ≡ rejected replayed → Turned p s f
    unconfirmed :
        (row : RefreshTokenWhitelistModel) (user : User)
        → first (has_jti p.jti) s.whitelist ≡ some row
        → first (has_id row.user) s.users ≡ some user
        → row.enabled ≡ false
        → f ≡ rejected (disabled user)
        → Turned p s f
    over :
        (row : RefreshTokenWhitelistModel)
        → first (has_jti p.jti) s.whitelist ≡ some row
        → row.enabled ≡ true
        → session_is_over cfg j req.now p ≡ true
        → f ≡ rejected session_expired
        → Turned p s f
    deactivated :
        (row : RefreshTokenWhitelistModel) (user : User)
        → first (has_jti p.jti) s.whitelist ≡ some row
        → first (has_id row.user) s.users ≡ some user
        → row.enabled ≡ true
        → user.is_active ≡ false
        → f ≡ rejected (inactive_user user)
        → Turned p s f
    orphaned :
        (row : RefreshTokenWhitelistModel)
        → first (has_jti p.jti) s.whitelist ≡ some row
        → first (has_id row.user) s.users ≡ none
        → f ≡ does_not_exist
        → Turned p s f

  pub rotate-disabled :
      (t : Payload) (row : RefreshTokenWhitelistModel) (user : User) (s : Db)
      → first (has_jti t.jti) s.whitelist ≡ some row
      → row.enabled ≡ false
      → first (has_id row.user) s.users ≡ some user
      → (rotate cfg j req t s).0 ≡ err (rejected (disabled user))
  unfolding rotate admit
  rotate-disabled t row user s found off its = ground arith

  -- A session that is over has a start.
  started :
      (p : Payload) → session_is_over cfg j req.now p ≡ true → (t : ℕ) × (p.session_iat ≡ some t)
  unfolding session_is_over session_deadline
  started p h = elim (Option-cases p.session_iat) [
    | inl none_set ↦ absurd (ground arith)
    | inr (t, start) ↦ (t, start)
  ]

  admit-over :
      (p : Payload) (s : Db) (row : RefreshTokenWhitelistModel) (f : Failure)
      → first (has_jti p.jti) s.whitelist ≡ some row
      → row.enabled ≡ true
      → session_is_over cfg j req.now p ≡ true
      → (admit cfg j req p s).0 ≡ err f
      → f ≡ rejected session_expired
  unfolding admit
  admit-over p s row f found on ended h = let (t, start) = started p ended in ground arith

  admit-Turned :
      (p : Payload) (s : Db) (f : Failure) → (admit cfg j req p s).0 ≡ err f → Turned p s f
  unfolding admit
  admit-Turned p s f h = elim (Option-cases (first (has_jti p.jti) s.whitelist)) [
    | inl gone ↦ reused gone (ground arith)
    | inr (row, found) ↦ elim (Option-cases (first (has_id row.user) s.users)) [
      | inl no_user ↦ elim (Bool-cases row.enabled) [
        | inl on ↦ elim (Bool-cases (session_is_over cfg j req.now p)) [
          | inl ended ↦ over row found on ended (admit-over p s row f found on ended h)
          | inr lasts ↦ orphaned row found no_user (ground arith)
        ]
        | inr off ↦ orphaned row found no_user (ground arith)
      ]
      | inr (user, its) ↦ elim (Bool-cases row.enabled) [
        | inr off ↦ unconfirmed row user found its off (ground arith)
        | inl on ↦ elim (Bool-cases (session_is_over cfg j req.now p)) [
          | inl ended ↦ over row found on ended (admit-over p s row f found on ended h)
          | inr lasts ↦ deactivated row user found its on (ground arith) (ground arith)
        ]
      ]
    ]
  ]

  -- What the rest of a rotation can raise: the claims do not build, the token lacks its owner or its
  -- session, or the successor's row is refused. It never finds its own row gone.
  pub data Withheld (f : Failure) : Type 0 where
    bad_claims : f ≡ value_error → Withheld f
    no_owner : f ≡ key_error → Withheld f
    refused_row : f ≡ validation_error → Withheld f

  sync-fails :
      (s : Db) (user : User) (p : Payload) (f : Failure)
      → sync_user_claims cfg req s user p ≡ err f
      → f ≡ value_error
  unfolding sync_user_claims set_user_attributes
  sync-fails s user p f h = ground arith

  save_session-fails :
      (now jti session user : ℕ) (s : Db) (f : Failure)
      → (save_session now jti session user true s).0 ≡ err f
      → f ≡ validation_error
  unfolding save_session
  save_session-fails now jti session user s f h = ground arith

  hand_out-Withheld :
      (p : Payload) (s : Db) (a : Admission) (f : Failure)
      → Admitted cfg j req p s a
      → (hand_out cfg j req a s).0 ≡ err f
      → Withheld f
  unfolding hand_out
  hand_out-Withheld p s (row, user, anchored) f ad h =
      elim (Result-cases (sync_user_claims cfg req s user anchored)) [
        | inr (e, failed) ↦ bad_claims (sync-fails s user anchored f (ground arith))
        | inl (q, claims) ↦
            let here : 1 ≤ count (has_pk row.pk) s.whitelist =
              count-pos_of_first (has_jti p.jti) (has_pk row.pk) s.whitelist ad.found
                (==_refl row.pk) in
            elim (Option-cases (renew cfg j req q).user_id) [
              | inl lacks ↦ no_owner (ground arith)
              | inr (owner, owned) ↦ elim (Option-cases (renew cfg j req q).session) [
                | inl lacks ↦ no_owner (ground arith)
                | inr (session, in_it) ↦ refused_row (
                    save_session-fails req.now (renew cfg j req q).jti session owner
                      (record s { whitelist = delete (has_pk row.pk) s.whitelist }) f
                      (ground arith))
              ]
            ]
      ]

  rotate-fails :
      (p : Payload) (s : Db) (f : Failure)
      → (rotate cfg j req p s).0 ≡ err f
      → Turned p s f ⊎ ((a : Admission) × Admitted cfg j req p s a × Withheld f)
  unfolding rotate
  rotate-fails p s f h = elim (Result-cases (admit cfg j req p s).0) [
    | inr (e, failed) ↦ inl (admit-Turned p s f (ground arith))
    | inl (a, passed) ↦
        let ad = admit-Admitted cfg j req p s a passed in
        inr (
          a,
          ad,
          hand_out-Withheld p s a f ad (
              subst (λ m. (hand_out cfg j req a m).0 ≡ err f) (admit-state cfg j req p s)
                (ground arith)),
        )
  ]

  -- A refused refresh: the reason, what the caller is told, and the tables that are left.
  pub data Refusal (decoded : Option Payload) (s : Db) (e : Failure) (s' : Db) : Type 0 where
    undecoded : decoded ≡ none → e ≡ token_error → s' ≡ s → Refusal decoded s e s'
    no_session :
        (p : Payload)
        → decoded ≡ some p
        → p.session ≡ none
        → e ≡ invalid_token
        → s' ≡ s
        → Refusal decoded s e s'
    reuse :
        (p : Payload) (x : ℕ)
        → decoded ≡ some p
        → p.session ≡ some x
        → first (has_jti p.jti) s.whitelist ≡ none
        → e ≡ invalid_token
        → s' ≡ close_session x s
        → Refusal decoded s e s'
    not_confirmed :
        (p : Payload) (row : RefreshTokenWhitelistModel) (user : User)
        → decoded ≡ some p
        → first (has_jti p.jti) s.whitelist ≡ some row
        → first (has_id row.user) s.users ≡ some user
        → row.enabled ≡ false
        → e ≡ (if is_email_verified s user.id then invalid_token else not_verified_email)
        → s' ≡ s
        → Refusal decoded s e s'
    lifetime_over :
        (p : Payload) (x : ℕ) (row : RefreshTokenWhitelistModel)
        → decoded ≡ some p
        → p.session ≡ some x
        → first (has_jti p.jti) s.whitelist ≡ some row
        → row.enabled ≡ true
        → session_is_over cfg j req.now p ≡ true
        → e ≡ session_over
        → s' ≡ close_session x s
        → Refusal decoded s e s'
    no_longer_active :
        (p : Payload) (row : RefreshTokenWhitelistModel) (user : User)
        → decoded ≡ some p
        → first (has_jti p.jti) s.whitelist ≡ some row
        → first (has_id row.user) s.users ≡ some user
        → row.enabled ≡ true
        → user.is_active ≡ false
        → e ≡ invalid_token
        → s' ≡ close_sessions_of user.id s
        → Refusal decoded s e s'
    no_owner_row :
        (p : Payload) (row : RefreshTokenWhitelistModel)
        → decoded ≡ some p
        → first (has_jti p.jti) s.whitelist ≡ some row
        → first (has_id row.user) s.users ≡ none
        → e ≡ does_not_exist
        → s' ≡ s
        → Refusal decoded s e s'
    withheld :
        (p : Payload) (a : Admission)
        → decoded ≡ some p
        → Admitted cfg j req p s a
        → Withheld e
        → s' ≡ s
        → Refusal decoded s e s'

  -- An exception of the rotation that no handler catches goes through, and undoes the writes.
  uncaught :
      (p : Payload) (x : ℕ) (s : Db) (f : Failure)
      → p.session ≡ some x
      → (rotate cfg j req p s).0 ≡ err f
      → ((r : RotationRejected) → ¬ (f ≡ rejected r))
      → refresh_token cfg j req (some p) s ≡ (err f, s)
  unfolding refresh_token
  uncaught p x s (rejected r) in_it failed other_kind = absurd (other_kind r refl)
  uncaught p x s f in_it failed other_kind = ground arith

  uncaught-Withheld : (f : Failure) → Withheld f → (r : RotationRejected) → ¬ (f ≡ rejected r)
  uncaught-Withheld f (bad_claims e) r h = cc
  uncaught-Withheld f (no_owner e) r h = cc
  uncaught-Withheld f (refused_row e) r h = cc

  module _ (p : Payload) (x : ℕ) (s s' : Db) (e : Failure) (in_it : p.session ≡ some x)
      (h : refresh_token cfg j req (some p) s ≡ (err e, s')) where
    -- A rejection is handled by `reject`.
    handled :
        (r : RotationRejected)
        → (rotate cfg j req p s).0 ≡ err (rejected r)
        → (e' : Failure) (s'' : Db) → reject x r s ≡ (err e', s'')
        → (e ≡ e') × (s' ≡ s'')
    handled r failed e' s'' is =
        let same = sym h ∙ refresh_token-rejected cfg j req p x r s in_it failed ∙ is in (cc, cc)

    let_through :
        (f : Failure)
        → (rotate cfg j req p s).0 ≡ err f
        → ((r : RotationRejected) → ¬ (f ≡ rejected r))
        → (e ≡ f) × (s' ≡ s)
    let_through f failed other_kind =
        let same = sym h ∙ uncaught p x s f in_it failed other_kind in (cc, cc)

    turned :
        (f : Failure) → (rotate cfg j req p s).0 ≡ err f → Turned p s f → Refusal (some p) s e s'
    unfolding reject
    turned f failed (reused gone is) =
        let (told, left) = handled replayed (failed ∙ ap err is) invalid_token _ refl in
        reuse p x refl in_it gone told left
    turned f failed (unconfirmed row user found its off is) =
        let (told, left) = handled (disabled user) (failed ∙ ap err is) _ s refl in
        not_confirmed p row user refl found its off told left
    turned f failed (over row found on ended is) =
        let (told, left) = handled session_expired (failed ∙ ap err is) session_over _ refl in
        lifetime_over p x row refl in_it found on ended told left
    turned f failed (deactivated row user found its on stopped is) =
        let (told, left) = handled (inactive_user user) (failed ∙ ap err is) invalid_token _ refl in
        no_longer_active p row user refl found its on stopped told left
    turned f failed (orphaned row found lost is) =
        let (told, left) = let_through f failed (λ r again. cc) in
        no_owner_row p row refl found lost (told ∙ is) left

    raised-Refusal : Refusal (some p) s e s'
    unfolding refresh_token
    raised-Refusal = elim (Result-cases (rotate cfg j req p s).0) [
      | inl (t, done) ↦ absurd (ground arith)
      | inr (f, failed) ↦ elim (rotate-fails p s f failed) [
        | inl why ↦ turned f failed why
        | inr (a, ad, held) ↦
            let (told, left) = let_through f failed (uncaught-Withheld f held) in
            withheld p a refl ad (subst Withheld (sym told) held) left
      ]
    ]

  -- Every refresh that is refused, in any database, is refused for one of these reasons, with the
  -- failure and the database that go with it. Only a reuse and the end of a session's lifetime close
  -- the session, only an inactive user loses all of its sessions, and else nothing is written: the
  -- token was not decoded; it names no session; its row is not confirmed yet; its user is gone; or,
  -- past the checks, the claims do not build, the owner is missing or the new row is not accepted.
  pub refused_refresh_explained :
      (decoded : Option Payload) (s s' : Db) (e : Failure)
      → refresh_token cfg j req decoded s ≡ (err e, s')
      → Refusal decoded s e s'
  unfolding refresh_token
  refused_refresh_explained none s s' e h = undecoded refl (ground arith) (ground arith)
  refused_refresh_explained (some p) s s' e h = elim (Option-cases p.session) [
    | inl lacks ↦ no_session p refl lacks (ground arith) (ground arith)
    | inr (x, in_it) ↦ raised-Refusal p x s s' e in_it h
  ]
