-- ===== src/Session/Rotation.antt =====
-- What a rotation that succeeds has checked and written
-- (`TokenRefreshSerializer.rotate` of jwt_allauth/token_refresh/serializers.py).
use jwt_allauth.Base.{
  ℕ, ◌+◌, ◌≡◌, ◌∙◌, ap, subst, inl, inr, true, false, some, [], ◌∷◌, ◌++◌, arith, Option-cases,
  Result-cases, ok, delete, exists, first,
}
use jwt_allauth.Db.{Db}
use jwt_allauth.Settings.{Settings}
use jwt_allauth.Token.{Payload, Jwt, Request, sync_user_claims, access_token, session_is_over}
use jwt_allauth.Token.Sync.{sync-session, sync-user_id}
use jwt_allauth.Session.{
  has_jti, has_pk, has_id, new_row, save_session, Tokens, Admission, admit, renew, hand_out, rotate,
}

module _ (cfg : Settings) (j : Jwt) (req : Request) where
  -- What the checks of `rotate` have established.
  pub record Admitted (p : Payload) (s : Db) (a : Admission) : Type 0 where
    pub found : first (has_jti p.jti) s.whitelist ≡ some a.0
    pub enabled : a.0.enabled ≡ true
    pub owner : first (has_id a.0.user) s.users ≡ some a.1
    pub active : a.1.is_active ≡ true
    pub session : a.2.session ≡ p.session
    pub user_id : a.2.user_id ≡ p.user_id
    pub session_iat : (t : ℕ) → p.session_iat ≡ some t → a.2.session_iat ≡ some t
    pub alive : (t : ℕ) → p.session_iat ≡ some t → session_is_over cfg j req.now p ≡ false

  pub admit-state : (p : Payload) (s : Db) → (admit cfg j req p s).1 ≡ s
  unfolding admit
  admit-state p s = ground arith

  pub admit-Admitted :
      (p : Payload) (s : Db) (a : Admission) → (admit cfg j req p s).0 ≡ ok a → Admitted p s a
  unfolding admit
  admit-Admitted p s a h = record {
    found = ground arith;
    enabled = ground arith;
    owner = ground arith;
    active = ground arith;
    session = ground arith;
    user_id = ground arith;
    session_iat = λ t e. ground arith;
    alive = λ t e. ground arith;
  }

  -- What the rest of `rotate` has written.
  pub record HandedOut (s : Db) (a : Admission) (t : Tokens) (s' : Db) : Type 0 where
    pub synced : Payload
    pub claims : sync_user_claims cfg req s a.1 a.2 ≡ ok synced
    pub access : t.access ≡ access_token cfg j req.now synced
    pub refresh : t.refresh ≡ renew cfg j req synced
    pub owner : ℕ
    pub session : ℕ
    pub owner_id : t.refresh.user_id ≡ some owner
    pub session_id : t.refresh.session ≡ some session
    pub free : exists (has_jti t.refresh.jti) (delete (has_pk a.0.pk) s.whitelist) ≡ false
    pub written : s' ≡ record s {
      whitelist =
          delete (has_pk a.0.pk) s.whitelist
          ++ new_row req.now s.next_pk t.refresh.jti session owner true ∷ [];
      next_pk = s.next_pk + 1;
    }

  hand_out-HandedOut :
      (s : Db) (a : Admission) (t : Tokens) (s' : Db)
      → hand_out cfg j req a s ≡ (ok t, s')
      → HandedOut s a t s'
  unfolding hand_out save_session
  hand_out-HandedOut s (row, user, anchored) t s' h =
      elim (Result-cases (sync_user_claims cfg req s user anchored)) [
        | inr (e, failed) ↦ absurd (ground arith)
        | inl (q, claims) ↦ elim (Option-cases (renew cfg j req q).user_id) [
          | inl no_owner ↦ absurd (ground arith)
          | inr (owner, owned) ↦ elim (Option-cases (renew cfg j req q).session) [
            | inl no_session ↦ absurd (ground arith)
            | inr (session, in_it) ↦ record {
              synced = q;
              claims = claims;
              access = ground arith;
              refresh = ground arith;
              owner = owner;
              session = session;
              owner_id = ground arith;
              session_id = ground arith;
              free = ground arith;
              written = ground arith;
            }
          ]
        ]
      ]

  -- A successful rotation is an admission and what is handed out for it.
  pub rotate-ok :
      (p : Payload) (s : Db) (t : Tokens) (s' : Db)
      → rotate cfg j req p s ≡ (ok t, s')
      → (a : Admission) × Admitted p s a × HandedOut s a t s'
  unfolding rotate
  rotate-ok p s t s' h = elim (Result-cases (admit cfg j req p s).0) [
    | inr (e, failed) ↦ absurd (ground arith)
    | inl (a, admitted) ↦ (
      a,
      admit-Admitted p s a admitted,
      hand_out-HandedOut s a t s'
          (subst (λ m. hand_out cfg j req a m ≡ (ok t, s')) (admit-state p s) (ground arith)),
    )
  ]

  -- The successor has the fresh jti, and stays in the session and with the user of the token.
  pub renew-jti : (q : Payload) → (renew cfg j req q).jti ≡ req.fresh_jti
  unfolding renew
  renew-jti q = ground arith

  pub renew-session : (q : Payload) → (renew cfg j req q).session ≡ q.session
  unfolding renew
  renew-session q = ground arith

  pub renew-user_id : (q : Payload) → (renew cfg j req q).user_id ≡ q.user_id
  unfolding renew
  renew-user_id q = ground arith

  pub renew-session_iat : (q : Payload) → (renew cfg j req q).session_iat ≡ q.session_iat
  unfolding renew
  renew-session_iat q = ground arith

  module _ {p : Payload} {s s' : Db} {t : Tokens} {a : Admission} (ad : Admitted p s a)
      (out : HandedOut s a t s') where
    pub out-jti : t.refresh.jti ≡ req.fresh_jti
    out-jti = ap (λ (q : Payload). q.jti) out.refresh ∙ renew-jti out.synced

    pub out-session : (x : ℕ) → p.session ≡ some x → t.refresh.session ≡ some x
    out-session x h =
        ap (λ (q : Payload). q.session) out.refresh
        ∙ renew-session out.synced
        ∙ sync-session cfg req s a.1 a.2 out.claims x (ad.session ∙ h)

    pub out-user_id : t.refresh.user_id ≡ p.user_id
    out-user_id =
        ap (λ (q : Payload). q.user_id) out.refresh
        ∙ renew-user_id out.synced
        ∙ sync-user_id cfg req s a.1 a.2 out.claims
        ∙ ad.user_id
