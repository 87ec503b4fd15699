-- ===== src/Session/Stale.antt =====
-- What the whitelist has lost it does not get back: no step of the protocol brings in a row for a jti
-- that was issued before, or for a session that has no row.
use jwt_allauth.Base.{
  ℕ, suc, ◌≤◌, ◌≡◌, ◌≢◌, refl, ◌∙◌, sym, ap, subst, inl, inr, Bool, true, false, Option, some, List,
  [], ◌∷◌, ◌++◌, arith, ◌==◌, ==_refl, ==→eq, eq→==, eq-false, some-eq, Bool-cases, Result, ok, err,
  All, delete, exists, first-holds, exists-append, exists-delete-false, exists_of_count, count,
  count-delete_hit, count-pos_of_first, count-zero,
}
use jwt_allauth.Db.{RefreshTokenWhitelistModel, User, Db}
use jwt_allauth.Failure.{Failure}
use jwt_allauth.Revocation.{revoke_on_credential_change}
use jwt_allauth.Settings.{Settings}
use jwt_allauth.Token.{Payload, Jwt, JwtLaws, Request}
use jwt_allauth.Session.{
  has_jti, in_session, of_user, has_pk, new_row, for_user, Tokens, rotate, refresh_token, logout,
  logout_all, enable_first, enable_session,
}
use jwt_allauth.Session.Rotation.{rotate-ok, out-jti, out-session}
use jwt_allauth.Session.Protocol.{
  World, In, IsGenuine, IsFresh, issue, refresh_of, after_open, after_refresh, Step, open_session,
  refresh, log_out, log_out_all, change_credentials, confirm_address, elsewhere, Reach, here, next,
}
use jwt_allauth.Session.Invariant.{Agrees, IsValid, In-All}
use jwt_allauth.Session.Steps.{Shrinks, for_user-cases, refresh_token-cases}
use jwt_allauth.Session.Safety.{IsSafe, found-session, logout-Shrinks, revoke-Shrinks, Reach-IsSafe}

-- No row fits `q`.
abbrev pub Gone : (RefreshTokenWhitelistModel → Bool) → World → Type 0
Gone q w = exists q w.db.whitelist ≡ false

Shrinks-Gone :
    (q : RefreshTokenWhitelistModel → Bool) (s s' : Db)
    → Shrinks s s'
    → exists q s.whitelist ≡ false
    → exists q s'.whitelist ≡ false
Shrinks-Gone q s s' (taken_rows, taken, later) h =
    rw taken (exists-delete-false q taken_rows s.whitelist h)

-- One more row that does not fit.
add-Gone :
    (q : RefreshTokenWhitelistModel → Bool) (rows : List RefreshTokenWhitelistModel)
    (row : RefreshTokenWhitelistModel)
    → exists q rows ≡ false
    → q row ≡ false
    → exists q (rows ++ row ∷ []) ≡ false
unfolding exists
add-Gone q rows row h k = rw (exists-append, h, k) refl

exists-enable_first :
    (q : RefreshTokenWhitelistModel → Bool) (user : ℕ) (rows : List RefreshTokenWhitelistModel)
    → ((row : RefreshTokenWhitelistModel) → q (record row { enabled = true }) ≡ q row)
    → exists q (enable_first user rows) ≡ exists q rows
unfolding exists enable_first
exists-enable_first q user [] blind = refl
exists-enable_first q user (row ∷ rows) blind =
    ground (arith, blind row, exists-enable_first q user rows blind)

ne-sym : {a b : ℕ} → a ≢ b → b ≢ a
ne-sym h e = h (sym e)

-- Without a row in its session, a token has no row.
pub no_row_of :
    (q : Payload) (x : ℕ) (rows : List RefreshTokenWhitelistModel)
    → Agrees rows q
    → q.session ≡ some x
    → exists (in_session x) rows ≡ false
    → exists (has_jti q.jti) rows ≡ false
unfolding exists
no_row_of q x [] agrees in_it gone = refl
no_row_of q x (row ∷ rows) agrees in_it gone = elim (Bool-cases (row.jti == q.jti)) [
  | inl same ↦
      let here_too : row.session ≡ x =
        some-eq (sym (agrees.0 (==→eq row.jti q.jti same)) ∙ in_it) in
      absurd (ground arith)
  | inr other_row ↦ rw other_row (no_row_of q x rows agrees.1 in_it (ground arith))
]

module _ (cfg : Settings) (j : Jwt) (laws : JwtLaws j) where
  -- After a rotation the consumed jti is no longer whitelisted.
  pub rotate-Gone :
      (req : Request) (p : Payload) (t : Tokens) (s s' : Db) (issued : List Payload)
      → All (λ q. q.jti ≢ req.fresh_jti) issued
      → In p issued
      → rotate cfg j req p s ≡ (ok t, s')
      → IsValid s.whitelist issued
      → exists (has_jti p.jti) s'.whitelist ≡ false
  rotate-Gone req p t s s' issued fresh genuine rotated v =
      let (a, ad, out) = rotate-ok cfg j req p s t s' rotated in
      let left = delete (has_pk a.0.pk) s.whitelist in
      let one_left : suc (count (has_jti p.jti) left) ≤ count (has_jti p.jti) s.whitelist =
        count-delete_hit (has_jti p.jti) (has_jti p.jti) (has_pk a.0.pk) s.whitelist ad.found
          (first-holds (has_jti p.jti) s.whitelist ad.found) (==_refl a.0.pk) in
      rw out.written (
        add-Gone (has_jti p.jti) left _
          (exists_of_count (has_jti p.jti) left (omega (arith, v.one_per_jti p.jti, one_left)))
          (eq-false t.refresh.jti p.jti (λ e.
            In-All (λ q. q.jti ≢ req.fresh_jti) issued genuine fresh
              (sym e ∙ out-jti cfg j req ad out))))

  In-issue :
      (p : Payload) (r : Result Failure Payload) (issued : List Payload)
      → In p issued
      → In p (issue r issued)
  In-issue p (ok t) issued i = inr i
  In-issue p (err e) issued i = i

  -- What has been issued stays issued.
  pub In-Step : (p : Payload) {w u : World} → Step cfg j w u → In p w.issued → In p u.issued
  In-Step p {w} (open_session req enabled verified user fresh) i =
      In-issue p (for_user cfg j req enabled verified user w.db).0 w.issued i
  In-Step p {w} (refresh req decoded fresh genuine) i =
      In-issue p (refresh_of (refresh_token cfg j req decoded w.db).0) w.issued i
  In-Step p (log_out caller decoded genuine) i = i
  In-Step p (log_out_all user) i = i
  In-Step p (change_credentials user) i = i
  In-Step p (confirm_address user) i = i
  In-Step p (elsewhere q s' taken later) i = i

  In-Reach : (p : Payload) {w u : World} → Reach cfg j w u → In p w.issued → In p u.issued
  In-Reach p here i = i
  In-Reach p (next r step) i = In-Step p step (In-Reach p r i)

  -- A test on rows that no new row of this step fits, because the step's identifiers are fresh.
  open-Gone :
      (q : RefreshTokenWhitelistModel → Bool) (req : Request) (enabled : Bool)
      (verified : Option Bool) (user : User) (w : World)
      → ((pk : ℕ) → q (new_row req.now pk req.fresh_jti req.fresh_session user.id enabled) ≡ false)
      → Gone q w
      → Gone q (after_open cfg j req enabled verified user w)
  open-Gone q req enabled verified user w misses gone =
      elim (for_user-cases cfg j laws req enabled verified user w.db) [
        | inl (t, made, opened) ↦
            rw (opened.written, opened.jti)
              (add-Gone q w.db.whitelist
                (new_row req.now w.db.next_pk req.fresh_jti req.fresh_session user.id enabled) gone
                (misses w.db.next_pk))
        | inr (e, failed, same) ↦ rw same gone
      ]

  refresh-Gone :
      (q : RefreshTokenWhitelistModel → Bool) (req : Request) (decoded : Option Payload) (w : World)
      → IsGenuine decoded w.issued
      → IsSafe w
      → ((pk y owner : ℕ)
          → count (in_session y) w.db.whitelist ≢ 0
          → q (new_row req.now pk req.fresh_jti y owner true) ≡ false)
      → Gone q w
      → Gone q (after_refresh cfg j req decoded w)
  refresh-Gone q req decoded w genuine v misses gone =
      elim (refresh_token-cases cfg j laws req decoded w.db) [
        | inl (p, x, t, presented, in_it, done, rotated) ↦
            let s' = (refresh_token cfg j req decoded w.db).1 in
            let (a, ad, out) = rotate-ok cfg j req p w.db t s' rotated in
            let same : a.0.session ≡ x =
              found-session cfg j laws req p w.db w.issued a x v
                (subst (λ d. IsGenuine d w.issued) presented genuine) in_it ad in
            let stays : out.session ≡ x =
              some-eq (sym out.session_id ∙ out-session cfg j req ad out x in_it) in
            rw (out.written, out-jti cfg j req ad out)
              (add-Gone q (delete (has_pk a.0.pk) w.db.whitelist)
                (new_row req.now w.db.next_pk req.fresh_jti out.session out.owner true)
                (exists-delete-false q (has_pk a.0.pk) w.db.whitelist gone)
                (misses w.db.next_pk out.session out.owner (λ none_there. absurd (
                  omega (
                    arith,
                    none_there,
                    count-pos_of_first (has_jti p.jti) (in_session out.session) w.db.whitelist
                        ad.found (eq→== a.0.session out.session (same ∙ sym stays)),
                  )))))
        | inr (e, failed, shrunk) ↦
            Shrinks-Gone q w.db (refresh_token cfg j req decoded w.db).1 shrunk gone
      ]

  -- A test that is blind to `enabled` and that no row with fresh identifiers fits.
  record IsStale (q : RefreshTokenWhitelistModel → Bool) (w : World) : Type 0 where
    blind : (row : RefreshTokenWhitelistModel) → q (record row { enabled = true }) ≡ q row
    opening :
        (req : Request)
        → IsFresh req w
        → (pk user : ℕ) (enabled : Bool)
        → q (new_row req.now pk req.fresh_jti req.fresh_session user enabled) ≡ false
    rotating :
        (req : Request)
        → IsFresh req w
        → (pk y owner : ℕ) → count (in_session y) w.db.whitelist ≢ 0
        → q (new_row req.now pk req.fresh_jti y owner true) ≡ false

  Step-Gone :
      (q : RefreshTokenWhitelistModel → Bool) {w u : World}
      → Step cfg j w u
      → IsSafe w
      → IsStale q w
      → Gone q w
      → Gone q u
  unfolding logout_all enable_session
  Step-Gone q {w} (open_session req enabled verified user fresh) v stale g =
      open-Gone q req enabled verified user w (λ pk. stale.opening req fresh pk user.id enabled) g
  Step-Gone q {w} (refresh req decoded fresh genuine) v stale g =
      refresh-Gone q req decoded w genuine v (stale.rotating req fresh) g
  Step-Gone q {w} (log_out caller decoded genuine) v stale g =
      Shrinks-Gone q w.db (logout caller decoded w.db).1 (logout-Shrinks caller decoded w.db) g
  Step-Gone q {w} (log_out_all user) v stale g =
      exists-delete-false q (of_user user) w.db.whitelist g
  Step-Gone q {w} (change_credentials user) v stale g =
      Shrinks-Gone q w.db (revoke_on_credential_change cfg user w.db) (revoke-Shrinks cfg user w.db)
        g
  Step-Gone q {w} (confirm_address user) v stale g =
      exists-enable_first q user w.db.whitelist stale.blind ∙ g
  Step-Gone q {w} (elsewhere taken_rows s' taken later) v stale g =
      Shrinks-Gone q w.db s' (taken_rows, taken, later) g

  -- The jti of an issued token is stale, and so is its session once it has no row.
  jti-IsStale : (p : Payload) (w : World) → In p w.issued → IsStale (has_jti p.jti) w
  jti-IsStale p w i = record {
    blind = λ row. refl;
    opening = λ req fresh pk user enabled.
        eq-false req.fresh_jti p.jti
          (ne-sym (In-All (λ q. q.jti ≢ req.fresh_jti) w.issued i fresh.jti));
    rotating = λ req fresh pk y owner rows.
        eq-false req.fresh_jti p.jti
          (ne-sym (In-All (λ q. q.jti ≢ req.fresh_jti) w.issued i fresh.jti));
  }

  session-IsStale :
      (p : Payload) (x : ℕ) (w : World)
      → In p w.issued
      → p.session ≡ some x
      → Gone (in_session x) w
      → IsStale (in_session x) w
  session-IsStale p x w i in_it gone = record {
    blind = λ row. refl;
    opening = λ req fresh pk user enabled. eq-false req.fresh_session x (λ e.
        In-All (λ q. q.session ≢ some req.fresh_session) w.issued i fresh.session
          (in_it ∙ ap some (sym e)));
    rotating = λ req fresh pk y owner rows. eq-false y x (λ e. rows (
        ap (λ z. count (in_session z) w.db.whitelist) e
        ∙ count-zero (in_session x) w.db.whitelist gone));
  }

  pub Reach-Gone_jti :
      (p : Payload) {w u : World}
      → Reach cfg j w u
      → IsSafe w
      → In p w.issued
      → Gone (has_jti p.jti) w
      → Gone (has_jti p.jti) u
  Reach-Gone_jti p here v i g = g
  Reach-Gone_jti p (next {u = m} r step) v i g =
      Step-Gone (has_jti p.jti) step (Reach-IsSafe cfg j laws v r)
        (jti-IsStale p m (In-Reach p r i)) (Reach-Gone_jti p r v i g)

  pub Reach-Gone_session :
      (p : Payload) (x : ℕ) {w u : World}
      → Reach cfg j w u
      → IsSafe w
      → In p w.issued
      → p.session ≡ some x
      → Gone (in_session x) w
      → Gone (in_session x) u
  Reach-Gone_session p x here v i in_it g = g
  Reach-Gone_session p x (next {u = m} r step) v i in_it g =
      let still = Reach-Gone_session p x r v i in_it g in
      Step-Gone (in_session x) step (Reach-IsSafe cfg j laws v r)
        (session-IsStale p x m (In-Reach p r i) in_it still) still
