-- ===== src/Session/Steps.antt =====
-- Each handler against the whitelist: it adds one row, takes rows away, or leaves it alone.
use jwt_allauth.Base.{
  ℕ, ◌+◌, ◌≤◌, ◌≡◌, ◌⊎◌, refl, ◌∙◌, sym, ap, subst, inl, inr, Bool, false, not, ◌||◌, Option, none,
  some, List, [], ◌∷◌, ◌++◌, arith, Bool-cases, Option-cases, Result, Result-cases, ok, err, delete,
  exists,
}
use jwt_allauth.Db.{RefreshTokenWhitelistModel, User, Db}
use jwt_allauth.Failure.{
  Failure, RotationRejected, rejected, replayed, disabled, session_expired, inactive_user,
  validation_error, invalid_token,
}
use jwt_allauth.Settings.{Settings}
use jwt_allauth.Token.{Payload, Jwt, JwtLaws, Request}
use jwt_allauth.Token.Sync.{set_user_attributes-keeps}
use jwt_allauth.Session.{
  has_jti, has_id, in_session, of_user, new_row, save_session, new_session_token, for_user, Tokens,
  rotate, reject, refresh_token,
}

module _ {A : Type 0} where
  pub delete-none : (xs : List A) → delete (λ _. false) xs ≡ xs
  unfolding delete
  delete-none [] = refl
  delete-none (x ∷ xs) = ap (λ ys. x ∷ ys) (delete-none xs)

-- Some rows are taken away, perhaps none, and no key is handed out again.
abbrev pub Shrinks : Db → Db → Type 0
Shrinks s s' =
    (q : RefreshTokenWhitelistModel → Bool) × (s'.whitelist ≡ delete q s.whitelist)
    × (s.next_pk ≤ s'.next_pk)

pub Shrinks-refl : (s : Db) → Shrinks s s
Shrinks-refl s = ((λ _. false), sym (delete-none s.whitelist), omega arith)

-- The serializer refuses a jti that is taken and a user that is gone, and writes nothing then.
pub save_session-cases :
    (now jti session user : ℕ) (enabled : Bool) (s : Db)
    → (save_session now jti session user enabled s ≡ (err validation_error, s))
      ⊎ ((exists (has_jti jti) s.whitelist ≡ false)
          × (save_session now jti session user enabled s ≡ (
            ok tt,
            record s {
              whitelist = s.whitelist ++ new_row now s.next_pk jti session user enabled ∷ [];
              next_pk = s.next_pk + 1;
            },
          )))
unfolding save_session
save_session-cases now jti session user enabled s =
    elim (Bool-cases (exists (has_jti jti) s.whitelist || not (exists (has_id user) s.users))) [
      | inl refused ↦ inl (rw refused refl)
      | inr free ↦ inr (ground arith, rw free refl)
    ]

module _ (cfg : Settings) (j : Jwt) (req : Request) where
  pub refresh_token-rejected :
      (p : Payload) (x : ℕ) (reason : RotationRejected) (s : Db)
      → p.session ≡ some x
      → (rotate cfg j req p s).0 ≡ err (rejected reason)
      → refresh_token cfg j req (some p) s ≡ reject x reason s
  unfolding refresh_token
  refresh_token-rejected p x reason s in_it failed = ground arith

module _ (cfg : Settings) (j : Jwt) (laws : JwtLaws j) (req : Request) where
  -- A new session: the row of the token that is handed out, or nothing.
  pub record Opened (user : User) (enabled : Bool) (t : Payload) (s s' : Db) : Type 0 where
    pub jti : t.jti ≡ req.fresh_jti
    pub session : t.session ≡ some req.fresh_session
    pub user_id : t.user_id ≡ some user.id
    pub free : exists (has_jti t.jti) s.whitelist ≡ false
    pub written :
        s'.whitelist
        ≡ s.whitelist ++ new_row req.now s.next_pk t.jti req.fresh_session user.id enabled ∷ []
    pub next_key : s'.next_pk ≡ s.next_pk + 1

  new_session_token-claims :
      (verified : Option Bool) (user : User) (s : Db) (t : Payload)
      → new_session_token cfg j req verified user s ≡ ok t
      → (t.jti ≡ req.fresh_jti) × (t.session ≡ some req.fresh_session) × (t.user_id ≡ some user.id)
  unfolding new_session_token
  new_session_token-claims verified user s t h =
      let same = set_user_attributes-keeps cfg req user _ h in
      (
        same.jti ∙ ground (arith, laws.new_jti req.now req.fresh_jti user.id),
        same.session req.fresh_session (ground arith),
        same.user_id ∙ ground (arith, laws.new_user req.now req.fresh_jti user.id),
      )

  pub for_user-cases :
      (enabled : Bool) (verified : Option Bool) (user : User) (s : Db)
      → let (r, s') = for_user cfg j req enabled verified user s in
        ((t : Payload) × (r ≡ ok t) × Opened user enabled t s s')
        ⊎ ((e : Failure) × (r ≡ err e) × (s' ≡ s))
  unfolding for_user
  for_user-cases enabled verified user s =
      elim (Result-cases (new_session_token cfg j req verified user s)) [
        | inr (e, failed) ↦ inr (e, ground arith, ground arith)
        | inl (t, made) ↦
            elim (save_session-cases req.now t.jti req.fresh_session user.id enabled s) [
              | inl refused ↦ inr (invalid_token, ground (arith, refused), ground (arith, refused))
              | inr (free, saved) ↦
                  let claims = new_session_token-claims verified user s t made in
                  inl (
                    t,
                    ground arith,
                    record {
                      jti = claims.0;
                      session = claims.1;
                      user_id = claims.2;
                      free = free;
                      written = ground (arith, saved);
                      next_key = ground (arith, saved);
                    },
                  )
            ]
      ]

  reject-Shrinks :
      (session : ℕ) (reason : RotationRejected) (s : Db)
      → ((e : Failure) × ((reject session reason s).0 ≡ err e))
        × Shrinks s (reject session reason s).1
  unfolding reject
  reject-Shrinks session replayed s = ((_, refl), (in_session session, refl, omega arith))
  reject-Shrinks session (disabled user) s = ((_, refl), Shrinks-refl s)
  reject-Shrinks session session_expired s = ((_, refl), (in_session session, refl, omega arith))
  reject-Shrinks session (inactive_user user) s = ((_, refl), (of_user user.id, refl, omega arith))

  -- Where the rotation raises, nothing is handed out, and rows are at most taken away.
  refused :
      (p : Payload) (x : ℕ) (s : Db) (e : Failure)
      → p.session ≡ some x
      → (rotate cfg j req p s).0 ≡ err e
      → let (r, s') = refresh_token cfg j req (some p) s in
        (e' : Failure) × (r ≡ err e') × Shrinks s s'
  unfolding refresh_token
  refused p x s (rejected reason) in_it failed =
      let (raised, shrunk) = reject-Shrinks x reason s in
      let same = refresh_token-rejected cfg j req p x reason s in_it failed in
      (raised.0, ap (λ (m : Result Failure Tokens × Db). m.0) same ∙ raised.1, rw same shrunk)
  refused p x s e in_it failed =
      let raised : refresh_token cfg j req (some p) s ≡ (err e, s) = ground arith in
      (
        e,
        ap (λ (m : Result Failure Tokens × Db). m.0) raised,
        subst (Shrinks s) (sym (ap (λ (m : Result Failure Tokens × Db). m.1) raised))
            (Shrinks-refl s),
      )

  -- A refresh rotates the token that is presented, or hands out nothing and takes rows away.
  pub refresh_token-cases :
      (decoded : Option Payload) (s : Db)
      → let (r, s') = refresh_token cfg j req decoded s in
        ((p : Payload) × (x : ℕ) × (t : Tokens) × (decoded ≡ some p)
          × (p.session ≡ some x)
          × (r ≡ ok t)
          × (rotate cfg j req p s ≡ (ok t, s')))
        ⊎ ((e : Failure) × (r ≡ err e) × Shrinks s s')
  unfolding refresh_token
  refresh_token-cases none s = inr (_, refl, Shrinks-refl s)
  refresh_token-cases (some p) s = elim (Option-cases p.session) [
    | inl no_session ↦ inr (invalid_token, ground arith, rw no_session (Shrinks-refl s))
    | inr (x, in_it) ↦ elim (Result-cases (rotate cfg j req p s).0) [
      | inl (t, rotated) ↦ inl (p, x, t, refl, in_it, ground arith, ground arith)
      | inr (e, failed) ↦ inr (refused p x s e in_it failed)
    ]
  ]
