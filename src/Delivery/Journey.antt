-- ===== src/Delivery/Journey.antt =====
-- A session from its login to its logout, with a client that sends back what it was given.
use jwt_allauth.Base.{
  ℕ, ◌≡◌, refl, ◌∙◌, ap, inl, inr, Bool, true, false, Option, none, some, List, [], ◌∷◌, arith,
  ==_refl, Bool-cases, Result-cases, ok, err, exists, exists-append, exists-delete_covered, count,
  delete, ltb,
}
use jwt_allauth.Db.{User, Db}
use jwt_allauth.Failure.{Failure}
use jwt_allauth.Mfa.Gate.{
  challenge, tokens, allauth_authenticate, after_gate, login, mfa_challenge, open_session,
  update_last_login,
}
use jwt_allauth.Session.{Tokens, closes, in_session, for_user, logout, session_is_active}
use jwt_allauth.Session.Steps.{Opened, for_user-cases}
use jwt_allauth.Settings.{Settings}
use jwt_allauth.Token.{Payload, Jwt, JwtLaws, Request}
use jwt_allauth.Delivery.{
  Codec, TokenResponse, Incoming, set_refresh_token_cookie, build_token_response, presented,
  logged_out, logout_view, granted, answer_login, login_view,
}

-- A client keeps the cookie and the field of a response, and sends them back.
abbrev pub keeps : {W : Type 0} → TokenResponse W → Incoming W
keeps response = record {
  cookie = elim response.cookie [ none ↦ none | some cookie ↦ some cookie.value ];
  refresh = response.refresh;
}

presented-keeps :
    {W : Type 0} (cfg : Settings) (c : Codec W) (t : Tokens)
    → presented cfg (keeps (build_token_response cfg c t)) ≡ some (c.encode t.refresh)
unfolding presented build_token_response set_refresh_token_cookie
presented-keeps cfg c t = elim (Bool-cases cfg.as_cookie) [
  | inl on ↦ rw on refl
  | inr off ↦ rw off refl
]

exists→count :
    {A : Type 0} (p : A → Bool) (xs : List A) → exists p xs ≡ true → ltb 0 (count p xs) ≡ true
unfolding exists count
exists→count p [] h = cc
exists→count p (x ∷ xs) h = ground (arith, exists→count p xs)

-- The logout of a token of the caller that has a row.
logout-closes :
    (p : Payload) (user x : ℕ) (s : Db)
    → p.session ≡ some x
    → p.user_id ≡ some user
    → exists (closes p.jti x) s.whitelist ≡ true
    → logout (some user) (some p) s
      ≡ (ok tt, record s { whitelist = delete (closes p.jti x) s.whitelist })
unfolding logout
logout-closes p user x s in_it its live =
    ground (arith, ==_refl user, exists→count (closes p.jti x) s.whitelist live)

logout_view-closes :
    {W : Type 0} (cfg : Settings) (c : Codec W) (t : Tokens) (user x : ℕ) (s : Db)
    → c.decode (c.encode t.refresh) ≡ some t.refresh
    → t.refresh.session ≡ some x
    → t.refresh.user_id ≡ some user
    → exists (closes t.refresh.jti x) s.whitelist ≡ true
    → logout_view cfg c (some user) (keeps (build_token_response cfg c t)) s
      ≡ (ok logged_out, record s { whitelist = delete (closes t.refresh.jti x) s.whitelist })
unfolding logout_view
logout_view-closes cfg c t user x s reads in_it its live =
    rw
      (logout_view, presented-keeps cfg c t, reads, logout-closes t.refresh user x s in_it its live)
      refl

module _ (cfg : Settings) (j : Jwt) (laws : JwtLaws j) (req : Request) where
  login-opened :
      (available : Bool) (fresh : ℕ) (authenticated : Option User) (s s' : Db) (t : Tokens)
      → login cfg available j req fresh authenticated s ≡ (ok (tokens t), s')
      → (user : User) × (s0 : Db) × (authenticated ≡ some user)
        × ((for_user cfg j req true none user s0).0 ≡ ok t.refresh)
        × (s'.whitelist ≡ (for_user cfg j req true none user s0).1.whitelist)
  unfolding login after_gate allauth_authenticate open_session update_last_login
  login-opened available fresh none s s' t h = absurd (ground arith)
  login-opened available fresh (some user) s s' t h =
      elim (Result-cases (mfa_challenge cfg available req.now fresh user.id s).0) [
        | inr (e, failed) ↦ absurd (ground arith)
        | inl (some pending, asked) ↦ absurd (ground arith)
        | inl (none, passed) ↦
            let s0 = (mfa_challenge cfg available req.now fresh user.id s).1 in
            elim (Result-cases (for_user cfg j req true none user s0).0) [
              | inr (e, failed) ↦ absurd (ground arith)
              | inl (p, made) ↦ (user, s0, refl, ground arith, ground arith)
            ]
      ]

  login_view-granted :
      {W : Type 0} (available : Bool) (fresh : ℕ) (authenticated : Option User) (c : Codec W)
      (s s' : Db) (response : TokenResponse W)
      → login_view cfg available j req c fresh authenticated s ≡ (ok (granted response), s')
      → (t : Tokens) × (login cfg available j req fresh authenticated s ≡ (ok (tokens t), s'))
        × (response ≡ build_token_response cfg c t)
  unfolding login_view answer_login
  login_view-granted available fresh authenticated c s s' response h =
      elim (Result-cases (login cfg available j req fresh authenticated s).0) [
        | inr (e, failed) ↦ absurd (raises e failed)
        | inl (challenge pending, asked) ↦ absurd (ground arith)
        | inl (tokens t, done) ↦ (t, ground arith, ground arith)
      ]
    where
      raises : (e : Failure) → (login cfg available j req fresh authenticated s).0 ≡ err e → ⊥
      raises e failed = ground arith

  -- Opened sessions have their row.
  Opened-there :
      (user : User) (t : Payload) (s s' : Db)
      → Opened cfg j laws req user true t s s'
      → exists (closes t.jti req.fresh_session) s'.whitelist ≡ true
  unfolding exists
  Opened-there user t s s' o = rw (o.written, exists-append) (ground (arith, ==_refl t.jti))

  -- A session that a login opens ends with the logout of the client that was given it: whatever the
  -- settings say about cookies, the client that sends back what the login answered, with the access
  -- token of its user, is logged out, and the session is not active afterwards. The refresh token that the
  -- login hands out has to be read back at the logout from what it was written as.
  pub login_then_logout :
      {W : Type 0} (available : Bool) (fresh : ℕ) (authenticated : Option User) (c : Codec W)
      (s s' : Db) (response : TokenResponse W)
      → ((t : Tokens)
          → login cfg available j req fresh authenticated s ≡ (ok (tokens t), s')
          → c.decode (c.encode t.refresh) ≡ some t.refresh)
      → login_view cfg available j req c fresh authenticated s ≡ (ok (granted response), s')
      → (user : User) × (authenticated ≡ some user)
        × (let (r, s'') = logout_view cfg c (some user.id) (keeps response) s' in
            (r ≡ ok logged_out) × (session_is_active req.fresh_session s'' ≡ false))
  unfolding session_is_active
  login_then_logout available fresh authenticated c s s' response reads h =
      let (t, logged, answered) =
        login_view-granted available fresh authenticated c s s' response h in
      let (user, s0, is, made, kept) = login-opened available fresh authenticated s s' t logged in
      elim (for_user-cases cfg j laws req true none user s0) [
        | inr (e, failed, same) ↦ absurd (cc)
        | inl (p, opened_it, o) ↦
            let same : t.refresh ≡ p = cc in
            let closed =
              logout_view-closes cfg c t user.id req.fresh_session s' (reads t logged)
                (ap (λ (q : Payload). q.session) same ∙ o.session)
                (ap (λ (q : Payload). q.user_id) same ∙ o.user_id)
                (rw (same, kept) (Opened-there user p s0 _ o)) in
            (
              user,
              is,
              (
                rw (answered, closed) refl,
                rw (answered, closed)
                    (exists-delete_covered (in_session req.fresh_session)
                      (closes t.refresh.jti req.fresh_session) (λ row. ground arith) s'.whitelist),
              ),
            )
      ]
