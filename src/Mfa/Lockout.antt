-- ===== src/Mfa/Lockout.antt =====
-- Locked out exactly while enough failures lie in the window, and what that leaves of challenges.
use jwt_allauth.Base.{
  ℕ, zero, suc, ◌-◌, ◌<◌, ◌≡◌, refl, ◌∙◌, ap, true, false, ◌&&◌, none, some, List, [], ◌∷◌, ltb,
  leb, arith, select, count, length, length-select, map,
}
use jwt_allauth.Db.{GenericTokenModel, Db}
use jwt_allauth.Mfa.Attempts.{
  is_recent_attempt, insert_newest, newest_first, get_elem?, login_lockout_remaining,
  is_login_locked_out,
}
use jwt_allauth.Settings.{Settings}

length-insert_newest : (t : ℕ) (us : List ℕ) → length (insert_newest t us) ≡ suc (length us)
unfolding insert_newest
length-insert_newest t [] = refl
length-insert_newest t (u ∷ us) = ground (arith, length-insert_newest t us)

length-newest_first : (ts : List ℕ) → length (newest_first ts) ≡ length ts
unfolding newest_first
length-newest_first [] = refl
length-newest_first (t ∷ ts) =
    length-insert_newest t (newest_first ts) ∙ ap suc (length-newest_first ts)

length-map : {A B : Type 0} (f : A → B) (xs : List A) → length (map f xs) ≡ length xs
length-map f [] = refl
length-map f (x ∷ xs) = ap suc (length-map f xs)

get_elem?-some_iff_lt :
    (xs : List ℕ) (i : ℕ)
    → ltb i (length xs) ≡ (elim (get_elem? xs i) [ none ↦ false | some _ ↦ true ])
unfolding get_elem?
get_elem?-some_iff_lt [] i = ground arith
get_elem?-some_iff_lt (x ∷ xs) zero = ground arith
get_elem?-some_iff_lt (x ∷ xs) (suc i) = ground (arith, get_elem?-some_iff_lt xs i)

-- A user is locked out exactly while the limit is on and at least as many failures as it allows lie
-- within the window.
locked_out_iff :
    (cfg : Settings) (now user : ℕ) (s : Db)
    → is_login_locked_out cfg now user s ≡ (
        ltb 0 cfg.mfa_max_attempts
        && leb cfg.mfa_max_attempts (count (is_recent_attempt cfg now user) s.tokens))
unfolding is_login_locked_out login_lockout_remaining
locked_out_iff cfg now user s =
    let created = λ (row : GenericTokenModel). row.created in
    let rows = select (is_recent_attempt cfg now user) s.tokens in
    ground (
      arith,
      get_elem?-some_iff_lt (newest_first (map created rows)) (cfg.mfa_max_attempts - 1),
      length-newest_first (map created rows),
      length-map created rows,
      length-select (is_recent_attempt cfg now user) s.tokens,
    )

pub not_locked :
    (cfg : Settings) (now user : ℕ) (s : Db)
    → 0 < cfg.mfa_max_attempts
    → ltb 0 (login_lockout_remaining cfg now user s) ≡ false
    → count (is_recent_attempt cfg now user) s.tokens < cfg.mfa_max_attempts
unfolding is_login_locked_out
not_locked cfg now user s limited free = ground (arith, locked_out_iff cfg now user s)
