-- ===== src/Session/Refinement.antt =====
-- The endpoints against the abstract machine of live credentials: whatever a handler does to the
-- tables is one event of it.
use mathlib.Core.Path.{fun_ext}
use mathlib.Core.Option.{map}
use jwt_allauth.Base.{
  ℕ, ◌≤◌, ◌≡◌, ◌≢◌, ◌∙◌, sym, ap, refl, subst, inl, inr, Bool, true, Option, some, arith, ==_refl,
  ==→eq, some-eq, ok, exists, first-holds, first-none, count, count-zero,
}
use jwt_allauth.Db.{RefreshTokenWhitelistModel, User, Db}
use jwt_allauth.Revocation.{revoke_on_credential_change}
use jwt_allauth.Settings.{Settings}
use jwt_allauth.Token.{Payload, Jwt, JwtLaws, Request}
use jwt_allauth.Session.{
  has_jti, has_pk, in_session, of_user, new_row, Tokens, rotate, refresh_token, logout, logout_all,
  enable_session,
}
use jwt_allauth.Session.Rotation.{rotate-ok, out-jti, out-session}
use jwt_allauth.Session.Protocol.{
  World, In, IsGenuine, IsFresh, after_open, after_refresh, Step, open_session, refresh, log_out,
  log_out_all, change_credentials, confirm_address, elsewhere,
}
use jwt_allauth.Session.Invariant.{In-All}
use jwt_allauth.Session.Steps.{Shrinks, for_user-cases, refresh_token-cases}
use jwt_allauth.Session.Safety.{IsSafe, found-session, logout-Shrinks, revoke-Shrinks}
use jwt_allauth.Session.Keys.{HasKeys}
use jwt_allauth.Session.Credentials.{
  live, Event, opened, rotated, closed, apply, Allows, live-append, live-delete, live-rotate,
  live-enable_first, live_of_first,
}

-- The tables go from one view to another by one event, which the first view allows.
pub record Refines (s s' : Db) : Type 0 where
  pub event : Event
  pub allowed : Allows (live s.whitelist) event
  pub view : live s'.whitelist ≡ apply event (live s.whitelist)

Shrinks-Refines :
    (s s' : Db) → Shrinks s s' → ((x : ℕ) → count (in_session x) s.whitelist ≤ 1) → Refines s s'
unfolding apply
Shrinks-Refines s s' (q, taken, later) one = record {
  event = closed (λ y. exists (in_session y) s'.whitelist);
  allowed = tt;
  view = rw taken (fun_ext λ y. live-delete q s.whitelist y (one y));
}

same-Refines : (s s' : Db) → live s'.whitelist ≡ live s.whitelist → Refines s s'
unfolding apply
same-Refines s s' same = record { event = closed (λ y. true); allowed = tt; view = same }

module _ (cfg : Settings) (j : Jwt) (laws : JwtLaws j) where
  open-Refines :
      (req : Request) (enabled : Bool) (verified : Option Bool) (user : User) (w : World)
      → IsFresh req w
      → Refines w.db (after_open cfg j req enabled verified user w).db
  unfolding apply live
  open-Refines req enabled verified user w fresh =
      elim (for_user-cases cfg j laws req enabled verified user w.db) [
        | inl (t, made, o) ↦ record {
          event = opened req.fresh_session t.jti;
          allowed =
              ap (map (λ (r : RefreshTokenWhitelistModel). r.jti))
                (first-none (in_session req.fresh_session) w.db.whitelist fresh.unused);
          view = rw o.written (
              fun_ext λ y.
                live-append w.db.whitelist
                  (new_row req.now w.db.next_pk t.jti req.fresh_session user.id enabled) y
                  (count-zero (in_session req.fresh_session) w.db.whitelist fresh.unused));
        }
        | inr (e, failed, same) ↦ same-Refines w.db _ (rw same refl)
      ]

  -- What a rotation does to the view.
  rotate-Refines :
      (req : Request) (p : Payload) (x : ℕ) (t : Tokens) (w : World) (s' : Db)
      → IsFresh req w
      → In p w.issued
      → p.session ≡ some x
      → rotate cfg j req p w.db ≡ (ok t, s')
      → IsSafe w
      → HasKeys w.db
      → Refines w.db s'
  unfolding apply
  rotate-Refines req p x t w s' fresh genuine in_it rot v keys =
      let (a, ad, out) = rotate-ok cfg j req p w.db t s' rot in
      let same : a.0.session ≡ x =
        found-session cfg j laws req p w.db w.issued a x v genuine in_it ad in
      let stays : out.session ≡ a.0.session =
        some-eq (sym out.session_id ∙ out-session cfg j req ad out x in_it) ∙ sym same in
      let presented : a.0.jti ≡ p.jti =
        ==→eq a.0.jti p.jti (first-holds (has_jti p.jti) w.db.whitelist ad.found) in
      record {
        event = rotated a.0.session a.0.jti t.refresh.jti;
        allowed = (
          live_of_first (has_jti p.jti) w.db.whitelist a.0 ad.found (v.one_per_session a.0.session),
          λ again.
              In-All (λ q. q.jti ≢ req.fresh_jti) w.issued genuine fresh.jti
                (sym presented ∙ again ∙ out-jti cfg j req ad out),
        );
        view = rw (ap (λ (s : Db). s.whitelist) out.written) (
            fun_ext λ y.
              live-rotate (has_jti p.jti) (has_pk a.0.pk) w.db.whitelist a.0
                (new_row req.now w.db.next_pk t.refresh.jti out.session out.owner true) y ad.found
                (==_refl a.0.pk) (keys.unique a.0.pk) (v.one_per_session a.0.session) stays);
      }

  refresh-Refines :
      (req : Request) (decoded : Option Payload) (w : World)
      → IsFresh req w
      → IsGenuine decoded w.issued
      → IsSafe w
      → HasKeys w.db
      → Refines w.db (after_refresh cfg j req decoded w).db
  refresh-Refines req decoded w fresh genuine v keys =
      elim (refresh_token-cases cfg j laws req decoded w.db) [
        | inl (p, x, t, presented, in_it, done, rot) ↦
            rotate-Refines req p x t w (refresh_token cfg j req decoded w.db).1 fresh
              (subst (λ d. IsGenuine d w.issued) presented genuine) in_it rot v keys
        | inr (e, failed, shrunk) ↦
            Shrinks-Refines w.db (refresh_token cfg j req decoded w.db).1 shrunk v.one_per_session
      ]

  -- Each handler that holds the lock is one event.
  pub Step-Refines : {w u : World} → Step cfg j w u → IsSafe w → HasKeys w.db → Refines w.db u.db
  unfolding logout_all enable_session
  Step-Refines {w} (open_session req enabled verified user fresh) v keys =
      open-Refines req enabled verified user w fresh
  Step-Refines {w} (refresh req decoded fresh genuine) v keys =
      refresh-Refines req decoded w fresh genuine v keys
  Step-Refines {w} (log_out caller decoded genuine) v keys =
      Shrinks-Refines w.db (logout caller decoded w.db).1 (logout-Shrinks caller decoded w.db)
        v.one_per_session
  Step-Refines {w} (log_out_all user) v keys =
      Shrinks-Refines w.db (logout_all user w.db).1 (of_user user, refl, omega arith)
        v.one_per_session
  Step-Refines {w} (change_credentials user) v keys =
      Shrinks-Refines w.db (revoke_on_credential_change cfg user w.db)
        (revoke-Shrinks cfg user w.db) v.one_per_session
  Step-Refines {w} (confirm_address user) v keys =
      same-Refines w.db (enable_session user w.db) (fun_ext (live-enable_first user w.db.whitelist))
  Step-Refines {w} (elsewhere q s' taken later) v keys =
      Shrinks-Refines w.db s' (q, taken, later) v.one_per_session
