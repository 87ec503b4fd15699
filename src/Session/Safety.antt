-- ===== src/Session/Safety.antt =====
-- Whatever the order of the requests: one live credential for each session.
use jwt_allauth.Base.{
  ℕ, suc, ◌≤◌, ◌≡◌, ◌≢◌, ◌⊎◌, refl, ◌∙◌, sym, subst, inl, inr, Bool, true, false, Option, none,
  some, List, [], ◌∷◌, arith, ◌==◌, ==_refl, ==→eq, eq→==, some-eq, Bool-cases, Option-cases, ok,
  All, delete, first-holds, first-All, count, count-zero, count-delete_hit,
}
use jwt_allauth.Db.{RefreshTokenWhitelistModel, User, Db}
use jwt_allauth.Revocation.{revoke_on_credential_change}
use jwt_allauth.Settings.{Settings}
use jwt_allauth.Token.{Payload, Jwt, JwtLaws, Request}
use jwt_allauth.Session.{
  Admission, closes, has_jti, in_session, of_user, has_pk, new_row, Tokens, rotate, refresh_token,
  logout, logout_all, enable_first, enable_session,
}
use jwt_allauth.Session.Rotation.{Admitted, rotate-ok, out-jti, out-session}
use jwt_allauth.Session.Protocol.{
  World, In, IsGenuine, IsFresh, after_open, after_refresh, Step, open_session, refresh, log_out,
  log_out_all, change_credentials, confirm_address, elsewhere, Reach, here, next,
}
use jwt_allauth.Session.Invariant.{Agrees, IsValid, In-All, delete-IsValid, add-IsValid}
use jwt_allauth.Session.Steps.{
  Shrinks, Shrinks-refl, delete-none, for_user-cases, refresh_token-cases,
}

abbrev pub IsSafe : World → Type 0
IsSafe w = IsValid w.db.whitelist w.issued

Shrinks-IsValid :
    (s s' : Db) {issued : List Payload}
    → Shrinks s s'
    → IsValid s.whitelist issued
    → IsValid s'.whitelist issued
Shrinks-IsValid s s' {issued} (q, taken, later) v =
    subst (λ rows. IsValid rows issued) (sym taken) (delete-IsValid q v)

logout-whitelist :
    (user : ℕ) (p : Payload) (x : ℕ) (s : Db)
    → p.session ≡ some x
    → let s' = (logout (some user) (some p) s).1 in
      (s'.whitelist ≡ s.whitelist) ⊎ (s'.whitelist ≡ delete (closes p.jti x) s.whitelist)
unfolding logout
logout-whitelist user p x s in_it = ground arith

logout-next_pk :
    (user : ℕ) (p : Payload) (s : Db) → s.next_pk ≤ (logout (some user) (some p) s).1.next_pk
unfolding logout
logout-next_pk user p s = ground arith

pub logout-Shrinks :
    (caller : Option ℕ) (decoded : Option Payload) (s : Db) → Shrinks s (logout caller decoded s).1
unfolding logout
logout-Shrinks caller none s = Shrinks-refl s
logout-Shrinks none (some p) s = Shrinks-refl s
logout-Shrinks (some user) (some p) s = elim (Option-cases p.session) [
  | inl no_session ↦ ((λ _. false), ground (arith, delete-none s.whitelist), ground arith)
  | inr (x, in_it) ↦ elim (logout-whitelist user p x s in_it) [
    | inl same ↦ ((λ _. false), same ∙ sym (delete-none s.whitelist), logout-next_pk user p s)
    | inr closed ↦ (closes p.jti x, closed, logout-next_pk user p s)
  ]
]

pub revoke-Shrinks :
    (cfg : Settings) (user : ℕ) (s : Db) → Shrinks s (revoke_on_credential_change cfg user s)
unfolding revoke_on_credential_change
revoke-Shrinks cfg user s = elim (Bool-cases cfg.logout_on_password_change) [
  | inl on ↦ (of_user user, rw on refl, rw on (omega arith))
  | inr off ↦ rw off (Shrinks-refl s)
]

-- Enabling a row changes no jti and no session.
pub count-enable_first :
    (p : RefreshTokenWhitelistModel → Bool) (user : ℕ) (rows : List RefreshTokenWhitelistModel)
    → ((row : RefreshTokenWhitelistModel) → p (record row { enabled = true }) ≡ p row)
    → count p (enable_first user rows) ≡ count p rows
unfolding count enable_first
count-enable_first p user [] blind = refl
count-enable_first p user (row ∷ rows) blind =
    ground (arith, blind row, count-enable_first p user rows blind)

Agrees-enable_first :
    (t : Payload) (user : ℕ) (rows : List RefreshTokenWhitelistModel)
    → Agrees rows t
    → Agrees (enable_first user rows) t
unfolding enable_first
Agrees-enable_first t user [] h = tt
Agrees-enable_first t user (row ∷ rows) h = elim (Bool-cases (row.user == user)) [
  | inl its ↦ rw its (h.0, h.1)
  | inr other_row ↦ rw other_row (h.0, Agrees-enable_first t user rows h.1)
]

enable_first-IsValid :
    (user : ℕ) {rows : List RefreshTokenWhitelistModel} {issued : List Payload}
    → IsValid rows issued
    → IsValid (enable_first user rows) issued
enable_first-IsValid user {rows} {issued} v = record {
  one_per_session =
      λ x. rw (count-enable_first (in_session x) user rows (λ row. refl)) (v.one_per_session x);
  one_per_jti = λ n. rw (count-enable_first (has_jti n) user rows (λ row. refl)) (v.one_per_jti n);
  genuine = each issued v.genuine;
}
  where
    each : (ps : List Payload) → All (Agrees rows) ps → All (Agrees (enable_first user rows)) ps
    each [] g = tt
    each (p ∷ ps) g = (Agrees-enable_first p user rows g.0, each ps g.1)

module _ (cfg : Settings) (j : Jwt) (laws : JwtLaws j) where
  open-IsSafe :
      (req : Request) (enabled : Bool) (verified : Option Bool) (user : User) (w : World)
      → IsFresh req w
      → IsSafe w
      → IsSafe (after_open cfg j req enabled verified user w)
  open-IsSafe req enabled verified user w fresh v =
      elim (for_user-cases cfg j laws req enabled verified user w.db) [
        | inl (t, made, opened) ↦
            rw (made, opened.written)
              (add-IsValid t (new_row req.now w.db.next_pk t.jti req.fresh_session user.id enabled)
                v refl opened.session (rw opened.jti fresh.jti) opened.free
                (count-zero (in_session req.fresh_session) w.db.whitelist fresh.unused))
        | inr (e, failed, same) ↦ rw (failed, same) v
      ]

  -- The row that a genuine token consumes is of the session of the token.
  pub found-session :
      (req : Request) (p : Payload) (s : Db) (issued : List Payload) (a : Admission) (x : ℕ)
      → IsValid s.whitelist issued
      → In p issued
      → p.session ≡ some x
      → Admitted cfg j req p s a
      → a.0.session ≡ x
  found-session req p s issued a x v genuine in_it ad = some-eq (
      sym (
        first-All (λ row. row.jti ≡ p.jti → p.session ≡ some row.session) (has_jti p.jti)
          s.whitelist (In-All (Agrees s.whitelist) issued genuine v.genuine) ad.found
          (==→eq a.0.jti p.jti (first-holds (has_jti p.jti) s.whitelist ad.found)))
      ∙ in_it)

  rotate-IsSafe :
      (req : Request) (p : Payload) (x : ℕ) (t : Tokens) (s s' : Db) (issued : List Payload)
      → All (λ q. q.jti ≢ req.fresh_jti) issued
      → In p issued
      → p.session ≡ some x
      → rotate cfg j req p s ≡ (ok t, s')
      → IsValid s.whitelist issued
      → IsValid s'.whitelist (t.refresh ∷ issued)
  rotate-IsSafe req p x t s s' issued fresh genuine in_it rotated v =
      let (a, ad, out) = rotate-ok cfg j req p s t s' rotated in
      let left = delete (has_pk a.0.pk) s.whitelist in
      let same : a.0.session ≡ x = found-session req p s issued a x v genuine in_it ad in
      let stays : out.session ≡ x =
        some-eq (sym out.session_id ∙ out-session cfg j req ad out x in_it) in
      let one_left : suc (count (in_session out.session) left)
          ≤ count (in_session out.session) s.whitelist =
        count-delete_hit (has_jti p.jti) (in_session out.session) (has_pk a.0.pk) s.whitelist
          ad.found (eq→== a.0.session out.session (same ∙ sym stays)) (==_refl a.0.pk) in
      rw out.written (
        add-IsValid t.refresh (new_row req.now s.next_pk t.refresh.jti out.session out.owner true)
          (delete-IsValid (has_pk a.0.pk) v) refl out.session_id
          (rw (out-jti cfg j req ad out) fresh) out.free
          (omega (arith, v.one_per_session out.session, one_left)))

  refresh-IsSafe :
      (req : Request) (decoded : Option Payload) (w : World)
      → IsFresh req w
      → IsGenuine decoded w.issued
      → IsSafe w
      → IsSafe (after_refresh cfg j req decoded w)
  refresh-IsSafe req decoded w fresh genuine v =
      elim (refresh_token-cases cfg j laws req decoded w.db) [
        | inl (p, x, t, presented, in_it, done, rotated) ↦ rw done (
            rotate-IsSafe req p x t w.db (refresh_token cfg j req decoded w.db).1 w.issued fresh.jti
              (subst (λ d. IsGenuine d w.issued) presented genuine) in_it rotated v)
        | inr (e, failed, shrunk) ↦
            rw failed (Shrinks-IsValid w.db (refresh_token cfg j req decoded w.db).1 shrunk v)
      ]

  -- Every step keeps the invariant.
  pub Step-IsSafe : {w u : World} → Step cfg j w u → IsSafe w → IsSafe u
  unfolding logout_all enable_session
  Step-IsSafe {w} (open_session req enabled verified user fresh) v =
      open-IsSafe req enabled verified user w fresh v
  Step-IsSafe {w} (refresh req decoded fresh genuine) v =
      refresh-IsSafe req decoded w fresh genuine v
  Step-IsSafe {w} (log_out caller decoded genuine) v =
      Shrinks-IsValid w.db (logout caller decoded w.db).1 (logout-Shrinks caller decoded w.db) v
  Step-IsSafe {w} (log_out_all user) v = delete-IsValid (of_user user) v
  Step-IsSafe {w} (change_credentials user) v =
      Shrinks-IsValid w.db (revoke_on_credential_change cfg user w.db)
        (revoke-Shrinks cfg user w.db) v
  Step-IsSafe (confirm_address user) v = enable_first-IsValid user v
  Step-IsSafe {w} (elsewhere q s' taken later) v = Shrinks-IsValid w.db s' (q, taken, later) v

  pub Reach-IsSafe : {w u : World} → IsSafe w → Reach cfg j w u → IsSafe u
  Reach-IsSafe v here = v
  Reach-IsSafe v (next r step) = Step-IsSafe step (Reach-IsSafe v r)

  -- From a safe state, whatever the endpoints are asked for and in whatever order: a session has
  -- at most one whitelisted credential, and a jti at most one row.
  pub one_live_credential :
      (w u : World)
      → IsSafe w
      → Reach cfg j w u
      → (x : ℕ) → (count (in_session x) u.db.whitelist ≤ 1) × (count (has_jti x) u.db.whitelist ≤ 1)
  one_live_credential w u v r x =
      let safe = Reach-IsSafe v r in (safe.one_per_session x, safe.one_per_jti x)
