-- ===== src/Base/Counting.antt =====
-- How often a test holds in a table, under the writes.
use mathlib.Core.Path.{◌≡◌, refl, ap, ◌∙◌}
use mathlib.Core.Bool.{Bool, true, false}
use mathlib.Core.Option.{some}
use mathlib.Core.List.{List, [], ◌∷◌, ◌++◌}
use Prim.Native.Nat.{suc, ◌+◌, ◌≤◌}
use mathlib.Core.Logic.{inl, inr}
use native.Mathlib.Omega.{arith}
use jwt_allauth.Base.Tests.{Bool-cases}
use jwt_allauth.Base.Lists.{length, select, delete, exists, first, first-cons_hit, count}

module _ {ℓ} {A : Type ℓ} where
  pub count-append : (p : A → Bool) (xs ys : List A) → count p (xs ++ ys) ≡ count p xs + count p ys
  unfolding count
  count-append p [] ys = omega arith
  count-append p (x ∷ xs) ys = ground (arith, count-append p xs ys)

  pub count-delete-le : (p q : A → Bool) (xs : List A) → count p (delete q xs) ≤ count p xs
  unfolding count delete
  count-delete-le p q [] = omega arith
  count-delete-le p q (x ∷ xs) = ground (arith, count-delete-le p q xs)

  pub count-zero : (p : A → Bool) (xs : List A) → exists p xs ≡ false → count p xs ≡ 0
  unfolding count exists
  count-zero p [] h = refl
  count-zero p (x ∷ xs) h = ground (arith, count-zero p xs)

  pub exists_of_count : (p : A → Bool) (xs : List A) → count p xs ≡ 0 → exists p xs ≡ false
  unfolding count exists
  exists_of_count p [] h = refl
  exists_of_count p (x ∷ xs) h = ground (arith, exists_of_count p xs)

  pub length-select : (p : A → Bool) (xs : List A) → length (select p xs) ≡ count p xs
  unfolding select count
  length-select p [] = refl
  length-select p (x ∷ xs) = ground (arith, length-select p xs)

  count-delete_pad : (p q : A → Bool) (xs : List A) → suc (count p (delete q xs)) ≤ suc (count p xs)
  count-delete_pad p q xs = omega (arith, count-delete-le p q xs)

  -- A row that was found, passes `p`, and is deleted, is one row less among those that pass `p`.
  pub count-delete_hit :
      (f p q : A → Bool) (xs : List A) {x : A}
      → first f xs ≡ some x
      → p x ≡ true
      → q x ≡ true
      → suc (count p (delete q xs)) ≤ count p xs
  unfolding first count delete
  count-delete_hit f p q [] e hp hq = absurd (cc)
  count-delete_hit f p q (y ∷ ys) e hp hq = elim (Bool-cases (f y)) [
    | inl hit ↦
        let same = first-cons_hit f ys hit e in
        rw (ap p same ∙ hp, ap q same ∙ hq) (count-delete_pad p q ys)
    | inr miss ↦ ground (arith, count-delete_hit f p q ys (rw miss at e) hp hq)
  ]

  -- A deletion that a found row fits reports at least one row.
  pub count-pos_of_first :
      (f q : A → Bool) (xs : List A) {x : A} → first f xs ≡ some x → q x ≡ true → 1 ≤ count q xs
  unfolding first count
  count-pos_of_first f q [] e hq = absurd (cc)
  count-pos_of_first f q (y ∷ ys) e hq = elim (Bool-cases (f y)) [
    | inl hit ↦ rw (ap q (first-cons_hit f ys hit e) ∙ hq) (omega arith)
    | inr miss ↦ ground (arith, count-pos_of_first f q ys (rw miss at e) hq)
  ]
