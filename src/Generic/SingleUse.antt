-- ===== src/Generic/SingleUse.antt =====
-- A single-use token is claimed once, and a newer link takes the older ones down.
use jwt_allauth.Base.{
  ℕ, zero, suc, ◌≤◌, ◌<◌, ◌≡◌, ◌≢◌, refl, Bool, true, false, not, ◌&&◌, List, [], ◌∷◌, ◌++◌, arith,
  ◌==◌, delete, count, count-zero, exists-delete_self, All, All-append,
}
use jwt_allauth.Db.{GenericTokenModel, Db, Purpose, same_purpose_refl}
use jwt_allauth.Generic.{is_token, is_of, new_token, consume, make_token, check_token, winners}

-- Nothing is left to claim after a claim.
consumed :
    (token : ℕ) (purpose : Purpose) (s : Db)
    → count (is_token token purpose) (consume token purpose s).1.tokens ≡ 0
unfolding consume
consumed token purpose s =
    count-zero (is_token token purpose) (delete (is_token token purpose) s.tokens)
      (exists-delete_self (is_token token purpose) s.tokens)

no_winners :
    (k token : ℕ) (purpose : Purpose) (s : Db)
    → count (is_token token purpose) s.tokens ≡ 0
    → winners k token purpose s ≡ 0
unfolding winners
no_winners zero token purpose s none_left = refl
no_winners (suc k) token purpose s none_left =
    ground (
      arith,
      no_winners k token purpose (consume token purpose s).1 (consumed token purpose s),
      lost,
    )
  where
    lost : (consume token purpose s).0 ≡ false
    lost = unfold consume in ground arith

-- Of any number of requests that present one stored token, exactly one claims it.
pub one_winner :
    (k token : ℕ) (purpose : Purpose) (s : Db)
    → 0 < count (is_token token purpose) s.tokens
    → winners (suc k) token purpose s ≡ 1
unfolding winners
one_winner k token purpose s stored =
    ground (
      arith,
      no_winners k token purpose (consume token purpose s).1 (consumed token purpose s),
      won,
    )
  where
    won : (consume token purpose s).0 ≡ true
    won = unfold consume in ground arith

-- Rows that a deletion covers are not found after it.
count-covered :
    (p q : GenericTokenModel → Bool) (rows : List GenericTokenModel)
    → All (λ row. p row ≡ true → q row ≡ true) rows
    → count p (delete q rows) ≡ 0
unfolding count delete
count-covered p q [] h = refl
count-covered p q (row ∷ rows) h = ground (arith, h.0, count-covered p q rows h.1)

count-spared :
    (p q : GenericTokenModel → Bool) (rows : List GenericTokenModel) (row : GenericTokenModel)
    → p row ≡ true
    → q row ≡ false
    → 1 ≤ count p (delete q (rows ++ row ∷ []))
unfolding count delete
count-spared p q [] row fits spared = rw (spared, fits) (omega arith)
count-spared p q (r ∷ rows) row fits spared = ground (arith, count-spared p q rows row fits spared)

covered_by :
    (user digest old : ℕ) (purpose : Purpose) (rows : List GenericTokenModel)
    → digest ≢ old
    → All (λ row. row.token ≡ old → row.user ≡ user) rows
    → All
        (λ row.
          is_token old purpose row ≡ true
          → (is_of user purpose row && not (row.token == digest)) ≡ true)
        rows
covered_by user digest old purpose [] ne its_own = tt
covered_by user digest old purpose (row ∷ rows) ne its_own =
    (λ fits. ground (arith, its_own.0), covered_by user digest old purpose rows ne its_own.1)

-- Asking for a link again makes an earlier one useless: where the stored rows with the old digest
-- are of this user and the new digest is another, the check of the old link fails, even if Django
-- still finds it well signed, and the check of the new link succeeds.
pub latest_link_only :
    (now user digest old : ℕ) (purpose : Purpose) (s : Db)
    → digest ≢ old
    → All (λ row. row.token ≡ old → row.user ≡ user) s.tokens
    → let made = make_token now user digest purpose s in
      ((check_token true old purpose made).0 ≡ false)
      × ((check_token true digest purpose made).0 ≡ true)
unfolding check_token make_token
latest_link_only now user digest old purpose s ne its_own =
    let fresh = new_token now s.next_pk user digest purpose in
    let superseded =
      λ (row : GenericTokenModel). is_of user purpose row && not (row.token == digest) in
    (
      ground (
        arith,
        count-covered (is_token old purpose) superseded (s.tokens ++ fresh ∷ []) (
            All-append (λ row. is_token old purpose row ≡ true → superseded row ≡ true) s.tokens
              (fresh ∷ []) (covered_by user digest old purpose s.tokens ne its_own)
              ((λ fits. absurd (ground arith)), tt)),
      ),
      ground (
        arith,
        count-spared (is_token digest purpose) superseded s.tokens fresh
            (ground (arith, same_purpose_refl purpose)) (ground arith),
      ),
    )
