-- ===== src/Base/Disjoint.antt =====
-- A deletion is not seen by a query that none of the deleted rows fits.
use mathlib.Core.Path.{◌≡◌, refl, ap, ◌∙◌}
use mathlib.Core.Bool.{Bool, true, false}
use mathlib.Core.List.{List, [], ◌∷◌, ◌++◌}
use mathlib.Core.Option.{some}
use mathlib.Core.Logic.{inl, inr}
use native.Mathlib.Omega.{arith}
use jwt_allauth.Base.Tests.{Bool-cases}
use jwt_allauth.Base.Lists.{select, delete, exists, first, count, All, first-cons_hit}

module _ {ℓ} {A : Type ℓ} where
  module _ (p q : A → Bool) (apart : (x : A) → p x ≡ true → q x ≡ false) where
    pub select-delete : (xs : List A) → select p (delete q xs) ≡ select p xs
    unfolding select delete
    select-delete [] = refl
    select-delete (x ∷ xs) = ground (arith, apart x, select-delete xs)

    pub exists-delete : (xs : List A) → exists p (delete q xs) ≡ exists p xs
    unfolding exists delete
    exists-delete [] = refl
    exists-delete (x ∷ xs) = ground (arith, apart x, exists-delete xs)

    pub count-delete : (xs : List A) → count p (delete q xs) ≡ count p xs
    unfolding count delete
    count-delete [] = refl
    count-delete (x ∷ xs) = ground (arith, apart x, count-delete xs)

    pub first-delete : (xs : List A) → first p (delete q xs) ≡ first p xs
    unfolding first delete
    first-delete [] = refl
    first-delete (x ∷ xs) = ground (arith, apart x, first-delete xs)

  pub select-append :
      (p : A → Bool) (xs ys : List A) → select p (xs ++ ys) ≡ select p xs ++ select p ys
  unfolding select
  select-append p [] ys = refl
  select-append p (x ∷ xs) ys = ground (arith, select-append p xs ys)

  pub select-none : (p : A → Bool) (xs : List A) → exists p xs ≡ false → select p xs ≡ []
  unfolding select exists
  select-none p [] h = refl
  select-none p (x ∷ xs) h = ground (arith, select-none p xs)

  pub All-select {κ} :
      (P : A → Type κ) (p : A → Bool) (xs : List A) → All P xs → All P (select p xs)
  unfolding select
  All-select P p [] h = tt
  All-select P p (x ∷ xs) h = elim (Bool-cases (p x)) [
    | inl fits ↦ rw fits (h.0, All-select P p xs h.1)
    | inr misses ↦ rw misses (All-select P p xs h.1)
  ]

  -- A deletion that covers a query leaves nothing for it.
  pub exists-delete_covered :
      (p q : A → Bool)
      → ((x : A) → p x ≡ true → q x ≡ true)
      → (xs : List A) → exists p (delete q xs) ≡ false
  unfolding exists delete
  exists-delete_covered p q covers [] = refl
  exists-delete_covered p q covers (x ∷ xs) =
      ground (arith, covers x, exists-delete_covered p q covers xs)

  -- A row that was found and is not deleted is found again.
  pub first-delete_kept :
      (p q : A → Bool) (xs : List A) {x : A}
      → first p xs ≡ some x
      → q x ≡ false
      → first p (delete q xs) ≡ some x
  unfolding first delete
  first-delete_kept p q [] e kept = absurd (cc)
  first-delete_kept p q (y ∷ ys) e kept = elim (Bool-cases (p y)) [
    | inl hit ↦ let same = first-cons_hit p ys hit e in rw (ap q same ∙ kept, hit) (ap some same)
    | inr miss ↦ ground (arith, first-delete_kept p q ys (rw miss at e) kept)
  ]

  pub exists_of_first :
      (p q : A → Bool) (xs : List A) {x : A} → first p xs ≡ some x → q x ≡ true → exists q xs ≡ true
  unfolding first exists
  exists_of_first p q [] e fits = absurd (cc)
  exists_of_first p q (y ∷ ys) e fits = elim (Bool-cases (p y)) [
    | inl hit ↦ rw (ap q (first-cons_hit p ys hit e) ∙ fits) refl
    | inr miss ↦ ground (arith, exists_of_first p q ys (rw miss at e) fits)
  ]
