-- ===== src/Registration/Spares.antt =====
-- Making room for a sign-up removes no account that is claimed.
use jwt_allauth.Accounts.{
  account_is_claimed, join_users, holders, resolve, resolve_email, superseded_accounts, delete_user,
  delete_users,
}
use jwt_allauth.Base.{
  ℕ, ◌≡◌, ◌∙◌, sym, ap, inl, inr, Bool, true, false, ◌||◌, some, List, [], ◌∷◌, arith, ◌==◌, ==→eq,
  some-eq, All, Bool-cases, Option-cases, first, first-holds, first-delete_kept,
}
use jwt_allauth.Db.{User, EmailAddress, Db}
use jwt_allauth.Registration.{Endpoint, claim_email}
use jwt_allauth.Session.{has_id}
use jwt_allauth.Settings.{Settings}

-- The user that its id finds.
abbrev IsStored : Db → User → Type 0
IsStored s u = first (has_id u.id) s.users ≡ some u

joined-IsStored :
    (s : Db) (es : List EmailAddress)
    → All (λ (h : EmailAddress × User). IsStored s h.1) (join_users s.users es)
unfolding join_users
joined-IsStored s [] = tt
joined-IsStored s (e ∷ es) = elim (Option-cases (first (has_id e.user) s.users)) [
  | inl gone ↦ rw (All, gone) (joined-IsStored s es)
  | inr (user, found) ↦
      let same = ==→eq user.id e.user (first-holds (has_id e.user) s.users found) in
      rw (All, found) (ap (λ n. first (has_id n) s.users) same ∙ found, joined-IsStored s es)
]

module _ (cfg : Settings) (now : ℕ) (s : Db) (reserve : Bool) where
  abbrev MayGo : User → Type 0
  MayGo u = (account_is_claimed cfg now s reserve (some u) ≡ false) × IsStored s u

  resolve-MayGo :
      (hs : List (EmailAddress × User))
      → All (λ (h : EmailAddress × User). IsStored s h.1) hs
      → All MayGo (resolve cfg now s reserve hs).1
  unfolding resolve
  resolve-MayGo [] known = tt
  resolve-MayGo ((e, user) ∷ hs) known =
      elim (Bool-cases (e.verified || account_is_claimed cfg now s reserve (some user))) [
        | inl claimed ↦ rw claimed tt
        | inr unclaimed ↦ elim (Option-cases (resolve cfg now s reserve hs).0) [
          | inl nobody ↦ rw (unclaimed, nobody) ((ground arith, known.0), resolve-MayGo hs known.1)
          | inr (owner, found) ↦ rw (unclaimed, found) tt
        ]
      ]

  others_go :
      (u : User) (superseded : List User)
      → IsStored s u
      → account_is_claimed cfg now s reserve (some u) ≡ true
      → All MayGo superseded
      → All (λ (v : User). (u.id == v.id) ≡ false) superseded
  others_go u [] there claimed go = tt
  others_go u (v ∷ vs) there claimed go = elim (Bool-cases (u.id == v.id)) [
    | inr apart ↦ (apart, others_go u vs there claimed go.1)
    | inl same ↦
        let one : u ≡ v =
          some-eq
            (sym there ∙ ap (λ n. first (has_id n) s.users) (==→eq u.id v.id same) ∙ go.0.1) in
        let clash : true ≡ false =
          sym claimed ∙ ap (λ w. account_is_claimed cfg now s reserve (some w)) one ∙ go.0.0 in
        absurd (cc)
  ]

delete_users-keeps :
    (u : User) (superseded : List User) (s : Db)
    → first (has_id u.id) s.users ≡ some u
    → All (λ (v : User). (u.id == v.id) ≡ false) superseded
    → first (has_id u.id) (delete_users superseded s).users ≡ some u
unfolding delete_users delete_user
delete_users-keeps u [] s there apart = there
delete_users-keeps u (v ∷ vs) s there apart =
    delete_users-keeps u vs (delete_user v.id s)
      (first-delete_kept (has_id u.id) (λ x. x.id == v.id) s.users there apart.0) apart.1

-- Claiming an address keeps every account that is claimed: its row is found by its id afterwards as it
-- was before, whichever endpoint asks and whatever address it asks for.
pub registration_spares_claimed :
    (cfg : Settings) (e : Endpoint) (now email : ℕ) (taken : Bool) (s : Db) (u : User)
    → first (has_id u.id) s.users ≡ some u
    → account_is_claimed cfg now s e.reserve_invitations (some u) ≡ true
    → first (has_id u.id) (claim_email cfg e now email taken s).1.users ≡ some u
unfolding claim_email superseded_accounts resolve_email holders
registration_spares_claimed cfg e now email taken s u there claimed =
    let hs = holders email s in
    let go = resolve-MayGo cfg now s e.reserve_invitations hs (joined-IsStored s _) in
    let kept =
      delete_users-keeps u _ s there
        (others_go cfg now s e.reserve_invitations u _ there claimed go) in
    ground (arith, kept)
