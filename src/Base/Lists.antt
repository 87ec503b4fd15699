-- ===== src/Base/Lists.antt =====
-- A table is the list of its rows, oldest first; a query is a test on rows.
use mathlib.Core.Path.{◌≡◌, refl, subst}
use mathlib.Core.Bool.{Bool, true, false, ◌||◌}
use mathlib.Core.Option.{Option, none, some}
use mathlib.Core.List.{List, [], ◌∷◌, ◌++◌}
use Prim.Native.Nat.{ℕ, suc}
use mathlib.Core.Logic.{inl, inr}
use native.Mathlib.Omega.{arith}
use jwt_allauth.Base.Tests.{if◌then◌else◌, Bool-cases}

module _ {ℓ} {A : Type ℓ} where
  abbrev pub length : List A → ℕ
  length [] = 0
  length (x ∷ xs) = suc (length xs)

  -- `objects.filter(p)`
  unfoldable pub select : (A → Bool) → List A → List A
  select p [] = []
  select p (x ∷ xs) = let rest = select p xs in if p x then x ∷ rest else rest

  -- `objects.filter(p).delete()`
  unfoldable pub delete : (A → Bool) → List A → List A
  delete p [] = []
  delete p (x ∷ xs) = let rest = delete p xs in if p x then rest else x ∷ rest

  -- `objects.filter(p).exists()`
  unfoldable pub exists : (A → Bool) → List A → Bool
  exists p [] = false
  exists p (x ∷ xs) = p x || exists p xs

  -- `objects.filter(p).first()`, in the order of the primary key
  unfoldable pub first : (A → Bool) → List A → Option A
  first p [] = none
  first p (x ∷ xs) = if p x then some x else first p xs

  -- `objects.filter(p).count()`, and the count that `delete()` reports
  unfoldable pub count : (A → Bool) → List A → ℕ
  count p [] = 0
  count p (x ∷ xs) = let rest = count p xs in if p x then suc rest else rest

module _ {ℓ} {A : Type ℓ} where
  abbrev pub All {κ} : (A → Type κ) → List A → Type κ
  All P [] = Unit
  All P (x ∷ xs) = P x × All P xs

  pub All-append {κ} : (P : A → Type κ) (xs ys : List A) → All P xs → All P ys → All P (xs ++ ys)
  All-append P [] ys h k = k
  All-append P (x ∷ xs) ys h k = (h.0, All-append P xs ys h.1 k)

  pub All-delete {κ} :
      (P : A → Type κ) (q : A → Bool) (xs : List A) → All P xs → All P (delete q xs)
  unfolding delete
  All-delete P q [] h = tt
  All-delete P q (x ∷ xs) h = elim (Bool-cases (q x)) [
    | inl gone ↦ rw gone (All-delete P q xs h.1)
    | inr kept ↦ rw kept (h.0, All-delete P q xs h.1)
  ]

  pub first-cons_hit :
      (p : A → Bool) {y x : A} (ys : List A) → p y ≡ true → first p (y ∷ ys) ≡ some x → y ≡ x
  unfolding first
  first-cons_hit p ys hit e = ground arith

  pub first-All {κ} :
      (P : A → Type κ) (p : A → Bool) (xs : List A) {x : A} → All P xs → first p xs ≡ some x → P x
  unfolding first
  first-All P p [] h e = absurd (cc)
  first-All P p (y ∷ ys) h e = elim (Bool-cases (p y)) [
    | inl hit ↦ subst P (first-cons_hit p ys hit e) h.0
    | inr miss ↦ first-All P p ys h.1 (rw miss at e)
  ]

  pub first-holds : (p : A → Bool) (xs : List A) {x : A} → first p xs ≡ some x → p x ≡ true
  unfolding first
  first-holds p [] e = cc
  first-holds p (y ∷ ys) e = elim (Bool-cases (p y)) [
    | inl hit ↦ subst (λ a. p a ≡ true) (first-cons_hit p ys hit e) hit
    | inr miss ↦ first-holds p ys (rw miss at e)
  ]

  pub exists-append :
      (p : A → Bool) (xs ys : List A) → exists p (xs ++ ys) ≡ (exists p xs || exists p ys)
  unfolding exists
  exists-append p [] ys = refl
  exists-append p (x ∷ xs) ys = ground (arith, exists-append p xs ys)

  -- What is gone after a deletion: all that it selects.
  pub exists-delete_self : (p : A → Bool) (xs : List A) → exists p (delete p xs) ≡ false
  unfolding exists delete
  exists-delete_self p [] = refl
  exists-delete_self p (x ∷ xs) = ground (arith, exists-delete_self p xs)

  -- A deletion brings nothing in.
  pub exists-delete-false :
      (p q : A → Bool) (xs : List A) → exists p xs ≡ false → exists p (delete q xs) ≡ false
  unfolding exists delete
  exists-delete-false p q [] h = refl
  exists-delete-false p q (x ∷ xs) h = ground (arith, exists-delete-false p q xs)

  pub first-none : (p : A → Bool) (xs : List A) → exists p xs ≡ false → first p xs ≡ none
  unfolding exists first
  first-none p [] h = refl
  first-none p (x ∷ xs) h = ground (arith, first-none p xs)

  -- A row that was found is found before what is appended, and a row that fits nothing before it is
  -- found at the end.
  pub first-append_left :
      (p : A → Bool) (xs ys : List A) {a : A} → first p xs ≡ some a → first p (xs ++ ys) ≡ some a
  unfolding first
  first-append_left p [] ys found = absurd (cc)
  first-append_left p (x ∷ xs) ys {a = a} found = ground (arith, first-append_left p xs ys {a = a})

  pub first-append :
      (p : A → Bool) (xs : List A) (x : A)
      → exists p xs ≡ false
      → p x ≡ true
      → first p (xs ++ x ∷ []) ≡ some x
  unfolding first exists
  first-append p [] x free hit = ground arith
  first-append p (y ∷ ys) x free hit = ground (arith, first-append p ys x)
