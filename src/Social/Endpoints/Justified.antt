-- ===== src/Social/Endpoints/Justified.antt =====
-- What a social endpoint that answers has established.
use jwt_allauth.Base.{
  ℕ, ◌+◌, ◌≤◌, ◌≡◌, ◌⊎◌, refl, ◌∙◌, inl, inr, Bool, true, false, none, some, List, [], ◌∷◌, arith,
  ◌==◌, Bool-cases, Option-cases, Result, Result-cases, ok, err, length, ltb, delete, exists, count,
  length-select, first,
}
use jwt_allauth.Db.{SocialAccount, User, Db}
use jwt_allauth.Delivery.{Codec, TokenResponse, build_token_response}
use jwt_allauth.Failure.{Failure, social_second_factor_pending}
use jwt_allauth.Mfa.Gate.{mfa_challenge, second_factor_pending}
use jwt_allauth.Mfa.Gate.Agreement.{gate_agrees}
use jwt_allauth.Session.{Tokens}
use jwt_allauth.Session.Steps.{for_user-cases}
use jwt_allauth.Settings.{Settings}
use jwt_allauth.Social.{SocialLogin, Allauth, authenticate_social_login, disconnect_social_account}
use jwt_allauth.Social.Endpoints.{
  social_granted, owed, social_session, social_login, accounts_of, social_disconnect,
  disconnect_found, validate_disconnect,
}
use jwt_allauth.Token.{Jwt, JwtLaws, Request, access_token}
use jwt_allauth.Token.Access.{access_token-names}

module _ {W : Type 0} (cfg : Settings) (available : Bool) (j : Jwt) (laws : JwtLaws j)
    (req : Request) (c : Codec W) (fresh : ℕ) where
  -- A session of a user for whom no second factor is pending.
  abbrev pub Opens : User → Db → TokenResponse W → Type 0
  Opens user s response =
      (second_factor_pending cfg available s user.id ≡ false)
      × ((t : Tokens) × (response ≡ build_token_response cfg c t)
          × (t.refresh.user_id ≡ some user.id)
          × (t.refresh.session ≡ some req.fresh_session)
          × (t.access.user_id ≡ some user.id)
          × (t.access.session ≡ some req.fresh_session))

  owed-grants-nothing :
      (user : User) (s s' : Db) (response : TokenResponse W)
      → ¬ (owed cfg available j req c fresh user s ≡ (ok (social_granted response), s'))
  unfolding owed
  owed-grants-nothing user s s' response h =
      elim (Result-cases (mfa_challenge cfg available req.now fresh user.id s).0) [
        | inr (e, failed) ↦ ground arith
        | inl (none, asked) ↦ ground arith
        | inl (some pending, asked) ↦ ground arith
      ]

  social_session-Opens :
      (verified : Bool) (user : User) (s s' : Db) (response : TokenResponse W)
      → social_session cfg available j req c fresh verified user s
        ≡ (ok (social_granted response), s')
      → Opens user s response
  unfolding social_session
  social_session-Opens verified user s s' response h =
      let gate = gate_agrees cfg available req.now fresh user.id s in
      elim (Result-cases (mfa_challenge cfg available req.now fresh user.id s).0) [
        | inr (e, failed) ↦ absurd (ground arith)
        | inl (some pending, asked) ↦ absurd (ground arith)
        | inl (none, passed) ↦
            let s1 = (mfa_challenge cfg available req.now fresh user.id s).1 in
            elim (for_user-cases cfg j laws req true (some verified) user s1) [
              | inr (e, failed, same) ↦ absurd (ground arith)
              | inl (p, made, o) ↦
                  let (access_user, access_session) = access_token-names cfg j req.now p in
                  (
                    ground (arith, gate.0),
                    (
                      record { access = access_token cfg j req.now p; refresh = p },
                      ground arith,
                      o.user_id,
                      o.session,
                      access_user ∙ laws.access_user req.now p ∙ o.user_id,
                      access_session ∙ laws.access_session req.now p ∙ o.session,
                    ),
                  )
            ]
      ]

  -- Where a social login answers with tokens, the credential was accepted, no second factor is pending
  -- for the user, and the tokens are of the user and of a new session.
  pub social_login_needs_second_factor :
      (a : Allauth) (credential : Result Failure SocialLogin) (s s' : Db)
      (response : TokenResponse W)
      → social_login cfg available j req c fresh a credential s ≡ (ok (social_granted response), s')
      → (sl : SocialLogin) × (user : User) × (verified : Bool) × (s1 : Db) × (credential ≡ ok sl)
        × (authenticate_social_login cfg available a req.now sl s ≡ (ok (user, verified), s1))
        × Opens user s1 response
  unfolding social_login
  social_login_needs_second_factor a (err e) s s' response h = absurd (cc)
  social_login_needs_second_factor a (ok sl) s s' response h =
      let s1 = (authenticate_social_login cfg available a req.now sl s).1 in
      elim (Result-cases (authenticate_social_login cfg available a req.now sl s).0) [
        | inl ((user, verified), done) ↦ (
          sl,
          user,
          verified,
          s1,
          refl,
          ground arith,
          social_session-Opens verified user s1 s' response (ground arith),
        )
        | inr (social_second_factor_pending user, failed) ↦
            absurd (owed-grants-nothing user s1 s' response (ground arith))
        | inr (e, failed) ↦ absurd (ground arith)
      ]

-- A deletion takes no more rows than it fits.
count-delete-ge :
    {A : Type 0} (p q : A → Bool) (xs : List A) → count p xs ≤ count p (delete q xs) + count q xs
unfolding count delete
count-delete-ge p q [] = omega arith
count-delete-ge p q (x ∷ xs) = ground (arith, count-delete-ge p q xs)

exists_of_pos : {A : Type 0} (p : A → Bool) (xs : List A) → 1 ≤ count p xs → exists p xs ≡ true
unfolding count exists
exists_of_pos p [] h = absurd (omega (arith, h))
exists_of_pos p (x ∷ xs) h = ground (arith, exists_of_pos p xs)

abbrev pub connection_of : ℕ → SocialAccount → Bool
connection_of user account = account.user == user

abbrev pub has_social_pk : ℕ → SocialAccount → Bool
has_social_pk pk account = account.pk == pk

module _ (a : Allauth) (upstream : SocialAccount → List SocialAccount → Bool) (user : User)
    (own : (account : SocialAccount) (accounts : List SocialAccount)
      → a.may_disconnect account accounts
        ≡ validate_disconnect (upstream account accounts) accounts user) where
  disconnect_found-way_in :
      (account : SocialAccount) (s : Db)
      → ((n : ℕ) → count (has_social_pk n) s.social ≤ 1)
      → exists (connection_of user.id) s.social ≡ true
      → let s' = (disconnect_found a account (accounts_of user.id s) s).1 in
        (user.usable_password ≡ true) ⊎ (exists (connection_of user.id) s'.social ≡ true)
  unfolding disconnect_found disconnect_social_account validate_disconnect
  disconnect_found-way_in account s unique some_left =
      let accounts = accounts_of user.id s in
      let left = delete (has_social_pk account.pk) s.social in
      elim (Bool-cases (a.may_disconnect account accounts)) [
        | inr refused ↦ inr (ground arith)
        | inl allowed ↦ elim (Bool-cases user.usable_password) [
          | inl password ↦ inl password
          | inr without ↦
              let several : ltb 1 (length accounts) ≡ true = ground (arith, own account accounts) in
              let remains : exists (connection_of user.id) left ≡ true =
                exists_of_pos (connection_of user.id) left (
                  ground (
                    arith,
                    length-select (connection_of user.id) s.social,
                    count-delete-ge (connection_of user.id) (has_social_pk account.pk) s.social,
                    unique account.pk,
                  )) in
              inr (ground arith)
        ]
      ]

  -- Nobody locks themselves out: with the adapter that the library installs, where a key names one
  -- connection, a user who had a connection has a usable password or still a connection after a
  -- request to disconnect one, whatever connection it names and however it is answered.
  pub disconnect_keeps_a_way_in :
      (pk : ℕ) (s : Db)
      → ((n : ℕ) → count (has_social_pk n) s.social ≤ 1)
      → exists (connection_of user.id) s.social ≡ true
      → let s' = (social_disconnect a user.id pk s).1 in
        (user.usable_password ≡ true) ⊎ (exists (connection_of user.id) s'.social ≡ true)
  unfolding social_disconnect
  disconnect_keeps_a_way_in pk s unique some_left =
      elim (Option-cases (first (has_social_pk pk) (accounts_of user.id s))) [
        | inl nothing ↦ inr (ground arith)
        | inr (account, found) ↦
            rw (social_disconnect, found) (disconnect_found-way_in account s unique some_left)
      ]
