-- ===== src/Accounts/Verdicts.antt =====
-- The two predicates and the three outcomes of jwt_allauth/accounts.py.
use jwt_allauth.Base.{
  ℕ, ◌≡◌, ◌↔◌, ◌⊎◌, refl, ap, inl, inr, true, false, ◌&&◌, ◌||◌, none, some, List, [], ◌∷◌, arith,
  ◌==◌, is_some, All, Bool-cases, Option-cases, exists, ==_refl, some-eq, sym,
}
use jwt_allauth.Db.{User, EmailAddress, Db}
use jwt_allauth.Accounts.{
  mailbox_control_proven, account_is_claimed, holders, resolve, resolve_email, resolve_provider,
  resolve_email_for_provider,
}
use jwt_allauth.Settings.{Settings}

module _ (cfg : Settings) (now : ℕ) (s : Db) where
  resolve-to-provider :
      (hs : List (EmailAddress × User))
      → (resolve cfg now s true hs).0 ≡ none
      → ((resolve_provider cfg now s hs).0 ≡ none)
        × ((resolve_provider cfg now s hs).1 ≡ [])
        × ((resolve_provider cfg now s hs).2 ≡ (resolve cfg now s true hs).1)
  unfolding resolve resolve_provider account_is_claimed mailbox_control_proven
  resolve-to-provider [] h = (refl, refl, refl)
  resolve-to-provider ((e, user) ∷ hs) h =
      let rest = resolve-to-provider hs in
      (ground (arith, rest), ground (arith, rest), ground (arith, rest))

  resolve-of-provider :
      (hs : List (EmailAddress × User))
      → (resolve_provider cfg now s hs).0 ≡ none
      → (resolve_provider cfg now s hs).1 ≡ []
      → ((resolve cfg now s true hs).0 ≡ none)
        × ((resolve cfg now s true hs).1 ≡ (resolve_provider cfg now s hs).2)
  unfolding resolve resolve_provider account_is_claimed mailbox_control_proven
  resolve-of-provider [] h k = (refl, refl)
  resolve-of-provider ((e, user) ∷ hs) h k =
      let rest = resolve-of-provider hs in (ground (arith, rest), ground (arith, rest))

  -- A registration may supersede some accounts of an address exactly when a provider finds that
  -- nobody proved control of it, that no account of it is occupied, and that these are abandoned.
  verdicts_agree :
      (email : ℕ) (accounts : List User)
      → (resolve_email cfg now email true s ≡ (none, accounts))
        ↔ (resolve_email_for_provider cfg now email s ≡ (none, [], accounts))
  unfolding resolve_email resolve_email_for_provider
  verdicts_agree email accounts = (
    λ h.
        let (owner, occupied, abandoned) =
          resolve-to-provider (holders email s) (ap (λ r. r.0) h) in
        cc,
    λ h.
        let (owner, same) =
          resolve-of-provider (holders email s) (ap (λ r. r.0) h) (ap (λ r. r.1) h) in
        cc,
  )

  abbrev pub Occupied : User → Type 0
  Occupied u =
      (is_some u.last_login ≡ true) × (mailbox_control_proven cfg now s true (some u) ≡ false)

  provider_sound :
      (hs : List (EmailAddress × User))
      → let (owner, occupied, abandoned) = resolve_provider cfg now s hs in
        All Occupied occupied
        × All (λ u. account_is_claimed cfg now s true (some u) ≡ false) abandoned
  unfolding resolve_provider account_is_claimed
  provider_sound [] = (tt, tt)
  provider_sound ((e, user) ∷ hs) =
      let (rest_occupied, rest_abandoned) = provider_sound hs in
      elim (Bool-cases (e.verified || mailbox_control_proven cfg now s true (some user))) [
        | inl proven ↦ rw proven (tt, tt)
        | inr unproven ↦ elim (Option-cases (resolve_provider cfg now s hs).0) [
          | inr (owner, found) ↦ rw (unproven, found) (tt, tt)
          | inl nobody ↦ elim (Bool-cases (is_some user.last_login)) [
            | inl used ↦
                rw (unproven, nobody, used) (((used, ground arith), rest_occupied), rest_abandoned)
            | inr unused ↦
                rw (unproven, nobody, unused) (rest_occupied, (ground arith, rest_abandoned))
          ]
        ]
      ]

  provider-owner :
      (hs : List (EmailAddress × User)) (user : User)
      → (resolve_provider cfg now s hs).0 ≡ some user
      → exists
          (λ h.
            h.1.id == user.id
            && (h.0.verified || mailbox_control_proven cfg now s true (some user)))
          hs
        ≡ true
  unfolding resolve_provider exists
  provider-owner [] user h = absurd (cc)
  provider-owner ((e, first_user) ∷ hs) user h =
      elim (Bool-cases (e.verified || mailbox_control_proven cfg now s true (some first_user))) [
        | inl proven ↦
            let same = some-eq (rw proven at h) in rw (sym same, ==_refl first_user.id, proven) refl
        | inr unproven ↦ ground (arith, provider-owner hs user)
      ]

  -- The three outcomes of a lookup for a provider: an occupied account has been used and never proved
  -- control of the mailbox, an abandoned one is not claimed, and an owner holds the address and has
  -- confirmed it or proved control of the mailbox in another way.
  pub provider_verdict :
      (email : ℕ)
      → let (owner, occupied, abandoned) = resolve_email_for_provider cfg now email s in
        All Occupied occupied
        × All (λ u. account_is_claimed cfg now s true (some u) ≡ false) abandoned
        × ((owner ≡ none)
            ⊎ ((user : User) × (owner ≡ some user)
                × (exists
                      (λ h.
                        h.1.id == user.id
                        && (h.0.verified || mailbox_control_proven cfg now s true (some user)))
                      (holders email s)
                    ≡ true)))
  unfolding resolve_email_for_provider
  provider_verdict email =
      let hs = holders email s in
      let (occupied, abandoned) = provider_sound hs in
      (
        occupied,
        abandoned,
        elim (Option-cases (resolve_provider cfg now s hs).0) [
          | inl nobody ↦ inl nobody
          | inr (user, found) ↦ inr (user, found, provider-owner hs user found)
        ],
      )

  -- The two verdicts on an address. A registration may supersede some accounts of it exactly when a
  -- provider finds that nobody proved control of it, that no account of it is occupied, and that these
  -- are abandoned. And what a provider finds is so: an occupied account has been used and never proved
  -- control of the mailbox, an abandoned one is not claimed, and an owner holds the address and has
  -- confirmed it or proved control of the mailbox in another way.
  pub verdicts_justified :
      (email : ℕ) (accounts : List User)
      → ((resolve_email cfg now email true s ≡ (none, accounts))
          ↔ (resolve_email_for_provider cfg now email s ≡ (none, [], accounts)))
        × (let (owner, occupied, abandoned) = resolve_email_for_provider cfg now email s in
            All Occupied occupied
            × All (λ u. account_is_claimed cfg now s true (some u) ≡ false) abandoned
            × ((owner ≡ none)
                ⊎ ((user : User) × (owner ≡ some user)
                    × (exists
                          (λ h.
                            h.1.id == user.id
                            && (h.0.verified || mailbox_control_proven cfg now s true (some user)))
                          (holders email s)
                        ≡ true))))
  verdicts_justified email accounts = (verdicts_agree email accounts, provider_verdict email)
