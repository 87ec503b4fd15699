-- ===== src/Session/Replay.antt =====
-- Reuse of a refresh token: it is noticed whenever it comes, and the session ends for good.
use jwt_allauth.Base.{
  ℕ, ◌≡◌, ◌∙◌, sym, ap, subst, inl, inr, false, some, arith, some-eq, Result, ok, err, exists,
  first-none, exists-delete_self,
}
use jwt_allauth.Db.{Db}
use jwt_allauth.Failure.{Failure, rejected, replayed, invalid_token}
use jwt_allauth.Settings.{Settings}
use jwt_allauth.Token.{Payload, Jwt, JwtLaws, Request}
use jwt_allauth.Session.{
  has_jti, in_session, Tokens, admit, rotate, reject, refresh_token, close_session,
  session_is_active,
}
use jwt_allauth.Session.Protocol.{World, In, IsFresh, after_refresh, refresh, Reach}
use jwt_allauth.Session.Invariant.{Agrees, In-All}
use jwt_allauth.Session.Steps.{refresh_token-rejected, refresh_token-cases}
use jwt_allauth.Session.Safety.{IsSafe, Step-IsSafe, Reach-IsSafe}
use jwt_allauth.Session.Stale.{
  Gone, no_row_of, rotate-Gone, In-Step, Reach-Gone_jti, Reach-Gone_session,
}

module _ (cfg : Settings) (j : Jwt) (laws : JwtLaws j) where
  rotate-replayed :
      (req : Request) (p : Payload) (s : Db)
      → exists (has_jti p.jti) s.whitelist ≡ false
      → (rotate cfg j req p s).0 ≡ err (rejected replayed)
  unfolding rotate admit
  rotate-replayed req p s gone = ground (arith, first-none (has_jti p.jti) s.whitelist gone)

  -- A token of a session whose jti is not whitelisted is refused as invalid and takes the rows of
  -- its session down, after which the session is not active.
  pub replay_closes_session :
      (req : Request) (p : Payload) (x : ℕ) (s : Db)
      → p.session ≡ some x
      → exists (has_jti p.jti) s.whitelist ≡ false
      → (refresh_token cfg j req (some p) s ≡ (err invalid_token, close_session x s))
        × (session_is_active x (close_session x s) ≡ false)
  unfolding session_is_active reject
  replay_closes_session req p x s in_it gone = (
    refresh_token-rejected cfg j req p x replayed s in_it (rotate-replayed req p s gone),
    exists-delete_self (in_session x) s.whitelist,
  )

  -- Reuse is detected. In a safe state a genuine token of a session is rotated, by a request that
  -- draws fresh identifiers. Whatever happens afterwards, in whatever order, presenting the token
  -- once more is refused as invalid and leaves no whitelisted token in its session.
  pub reuse_detected :
      (w u : World) (req req' : Request) (p : Payload) (x : ℕ) (t : Tokens)
      → IsSafe w
      → IsFresh req w
      → In p w.issued
      → p.session ≡ some x
      → (refresh_token cfg j req (some p) w.db).0 ≡ ok t
      → Reach cfg j (after_refresh cfg j req (some p) w) u
      → ((refresh_token cfg j req' (some p) u.db).0 ≡ err invalid_token)
        × (session_is_active x (refresh_token cfg j req' (some p) u.db).1 ≡ false)
  unfolding session_is_active
  reuse_detected w u req req' p x t v fresh genuine in_it rotated r =
      elim (refresh_token-cases cfg j laws req (some p) w.db) [
        | inr (e, failed, shrunk) ↦ absurd (cc)
        | inl (p', x', t', presented, in_it', done, rot) ↦
            let s' = (refresh_token cfg j req (some p) w.db).1 in
            let gone =
              rotate-Gone cfg j laws req p t' w.db s' w.issued fresh.jti genuine
                (subst (λ d. rotate cfg j req d w.db ≡ (ok t', s')) (sym (some-eq presented)) rot)
                v in
            let step = refresh req (some p) fresh genuine in
            let closes_it = replay_closes_session req' p x u.db in_it (
              Reach-Gone_jti cfg j laws p r (Step-IsSafe cfg j laws step v)
                (In-Step cfg j laws p step genuine) gone) in
            (
              ap (λ (m : Result Failure Tokens × Db). m.0) closes_it.0,
              ap (λ (m : Result Failure Tokens × Db). session_is_active x m.1) closes_it.0
                  ∙ closes_it.1,
            )
      ]

  -- A session of a genuine token that has no whitelisted token in a safe state is closed for good:
  -- whatever happens later, it has none, and no genuine token of it, old or new, is rotated.
  pub closed_session_stays_closed :
      (w u : World) (req : Request) (p q : Payload) (x : ℕ)
      → IsSafe w
      → In p w.issued
      → p.session ≡ some x
      → session_is_active x w.db ≡ false
      → Reach cfg j w u
      → In q u.issued
      → q.session ≡ some x
      → (session_is_active x u.db ≡ false)
        × ((refresh_token cfg j req (some q) u.db).0 ≡ err invalid_token)
  unfolding session_is_active
  closed_session_stays_closed w u req p q x v i in_it closed r k q_in_it =
      let still : Gone (in_session x) u = Reach-Gone_session cfg j laws p x r v i in_it closed in
      let safe = Reach-IsSafe cfg j laws v r in
      let no_row =
        no_row_of q x u.db.whitelist (In-All (Agrees u.db.whitelist) u.issued k safe.genuine)
          q_in_it still in
      (
        still,
        ap (λ (m : Result Failure Tokens × Db). m.0)
            (replay_closes_session req q x u.db q_in_it no_row).0,
      )
