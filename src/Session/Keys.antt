-- ===== src/Session/Keys.antt =====
-- The primary keys of the whitelist: a sequence hands each out once, so a key names one row, and a
-- rotation that claims a row by its key takes no row of another session away.
use jwt_allauth.Base.{
  ℕ, ◌+◌, ◌≤◌, ◌≡◌, refl, ap, inl, inr, Bool, false, true, [], ◌∷◌, ◌++◌, arith, count,
  count-append, count-delete-le, delete,
}
use jwt_allauth.Db.{RefreshTokenWhitelistModel, Db}
use jwt_allauth.Revocation.{revoke_on_credential_change}
use jwt_allauth.Settings.{Settings}
use jwt_allauth.Token.{Jwt, JwtLaws}
use jwt_allauth.Session.{
  has_pk, for_user, new_row, refresh_token, of_user, logout, logout_all, enable_session,
}
use jwt_allauth.Session.Protocol.{
  World, Step, open_session, refresh, log_out, log_out_all, change_credentials, confirm_address,
  elsewhere,
}
use jwt_allauth.Session.Steps.{Shrinks, delete-none, for_user-cases, refresh_token-cases}
use jwt_allauth.Session.Safety.{count-enable_first, logout-Shrinks, revoke-Shrinks}
use jwt_allauth.Session.Rotation.{rotate-ok}

-- A key that the sequence has handed out names at most one row, and a later one none.
pub record HasKeys (s : Db) : Type 0 where
  pub unique : (n : ℕ) → count (has_pk n) s.whitelist ≤ 1
  pub bounded : (n : ℕ) → s.next_pk ≤ n → count (has_pk n) s.whitelist ≡ 0

pub Shrinks-HasKeys : (s s' : Db) → Shrinks s s' → HasKeys s → HasKeys s'
Shrinks-HasKeys s s' (q, taken, later) v = record {
  unique = λ n. rw taken (omega (arith, v.unique n, count-delete-le (has_pk n) q s.whitelist));
  bounded = λ n h.
      rw taken (omega (arith, later, h, v.bounded n, count-delete-le (has_pk n) q s.whitelist));
}

enable_first-HasKeys : (user : ℕ) (s : Db) → HasKeys s → HasKeys (enable_session user s)
unfolding enable_session
enable_first-HasKeys user s v = record {
  unique = λ n. rw (count-enable_first (has_pk n) user s.whitelist (λ row. refl)) (v.unique n);
  bounded =
      λ n h. rw (count-enable_first (has_pk n) user s.whitelist (λ row. refl)) (v.bounded n h);
}

-- Rows are taken away and a new one takes the next key.
add-HasKeys :
    (q : RefreshTokenWhitelistModel → Bool) (s s' : Db) (row : RefreshTokenWhitelistModel)
    → row.pk ≡ s.next_pk
    → s'.whitelist ≡ delete q s.whitelist ++ row ∷ []
    → s'.next_pk ≡ s.next_pk + 1
    → HasKeys s
    → HasKeys s'
unfolding count
add-HasKeys q s s' row its written after v = record {
  unique = λ n.
      rw (written, count-append)
        (ground (arith, v.unique n, v.bounded n, count-delete-le (has_pk n) q s.whitelist));
  bounded = λ n h.
      rw (written, count-append)
        (ground (arith, v.bounded n, count-delete-le (has_pk n) q s.whitelist));
}

module _ (cfg : Settings) (j : Jwt) (laws : JwtLaws j) where
  pub Step-HasKeys : {w u : World} → Step cfg j w u → HasKeys w.db → HasKeys u.db
  unfolding logout_all
  Step-HasKeys {w} (open_session req enabled verified user fresh) v =
      let s' = (for_user cfg j req enabled verified user w.db).1 in
      elim (for_user-cases cfg j laws req enabled verified user w.db) [
        | inl (t, made, opened) ↦
            add-HasKeys (λ _. false) w.db s'
              (new_row req.now w.db.next_pk t.jti req.fresh_session user.id enabled) refl
              (rw delete-none opened.written) opened.next_key v
        | inr (e, failed, same) ↦ rw same v
      ]
  Step-HasKeys {w} (refresh req decoded fresh genuine) v =
      let s' = (refresh_token cfg j req decoded w.db).1 in
      elim (refresh_token-cases cfg j laws req decoded w.db) [
        | inl (p, x, t, presented, in_it, done, rotated) ↦
            let (a, ad, out) = rotate-ok cfg j req p w.db t s' rotated in
            add-HasKeys (has_pk a.0.pk) w.db s'
              (new_row req.now w.db.next_pk t.refresh.jti out.session out.owner true) refl
              (ap (λ (s : Db). s.whitelist) out.written) (ap (λ (s : Db). s.next_pk) out.written) v
        | inr (e, failed, shrunk) ↦ Shrinks-HasKeys w.db s' shrunk v
      ]
  Step-HasKeys {w} (log_out caller decoded genuine) v =
      Shrinks-HasKeys w.db (logout caller decoded w.db).1 (logout-Shrinks caller decoded w.db) v
  Step-HasKeys {w} (log_out_all user) v =
      Shrinks-HasKeys w.db (logout_all user w.db).1 (of_user user, refl, omega arith) v
  Step-HasKeys {w} (change_credentials user) v =
      Shrinks-HasKeys w.db (revoke_on_credential_change cfg user w.db)
        (revoke-Shrinks cfg user w.db) v
  Step-HasKeys {w} (confirm_address user) v = enable_first-HasKeys user w.db v
  Step-HasKeys {w} (elsewhere q s' taken later) v = Shrinks-HasKeys w.db s' (q, taken, later) v
