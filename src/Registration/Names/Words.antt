-- ===== src/Registration/Names/Words.antt =====
-- The words of a name are capitalized, and the spaces between them single, once and for all.
use mathlib.Core.List.{append_assoc}
use jwt_allauth.Base.{
  ℕ, ◌-◌, ◌≡◌, refl, sym, ap, ◌∙◌, inl, inr, Bool, true, false, not, ◌&&◌, ◌||◌, [], ◌∷◌, ◌++◌, map,
  arith, leb, ◌==◌, if◌then◌else◌, Bool-cases, ==→eq,
}
use jwt_allauth.Scaffold.Text.{Chars}
use jwt_allauth.Registration.Names.{space, collapse, split, join_rest, lower, upper, capitalize}

-- What a character becomes, at the start of a word or in it.
unfoldable pub word_char : Bool → ℕ → Chars
unfolding upper lower
word_char begins c = if begins then upper c else lower c ∷ []

-- All words of a text at once.
unfoldable pub words : Bool → Chars → Chars
unfolding word_char
words begins [] = []
words begins (c ∷ t) =
    let next = words true t in
    let on = words false t in if c == space then space ∷ next else word_char begins c ++ on

pub lower-space : (c : ℕ) → (lower c == space) ≡ (c == space)
unfolding lower
lower-space c = ground arith

pub lower_settles : (c : ℕ) → lower (lower c) ≡ lower c
unfolding lower
lower_settles c = ground arith

-- A character in title case.
pub data Titled (c : ℕ) : Type 0 where
  sharp : upper c ≡ 83 ∷ 115 ∷ [] → Titled c
  single : (u : ℕ) → upper c ≡ u ∷ [] → upper u ≡ u ∷ [] → (u == space) ≡ (c == space) → Titled c

titled : (c : ℕ) → Titled c
unfolding upper
titled c = elim (Bool-cases (c == 223)) [
  | inl is_sharp ↦ sharp (rw is_sharp refl)
  | inr other ↦ elim (Bool-cases (c == 255)) [
    | inl is_last ↦ single 376 (rw (other, is_last) refl) refl (ground arith)
    | inr other' ↦
        elim (Bool-cases
          ((leb 97 c && leb c 122) || (leb 224 c && leb c 246) || (leb 248 c && leb c 254))) [
            | inl small ↦
                single (c - 32) (rw (other, other', small) refl) (ground arith) (ground arith)
            | inr large ↦
                single c (rw (other, other', large) refl) (rw (other, other', large) refl) refl
          ]
  ]
]

pub words-split :
    (t : Chars)
    → (words true t ≡ capitalize (split t).0 ++ join_rest (map capitalize (split t).1))
      × (words false t ≡ map lower (split t).0 ++ join_rest (map capitalize (split t).1))
unfolding words word_char split join_rest capitalize
words-split [] = (refl, refl)
words-split (c ∷ t) =
    let (begins, goes_on) = words-split t in
    elim (Bool-cases (c == space)) [
      | inl gap ↦ (rw (gap, begins) refl, rw (gap, begins) refl)
      | inr other ↦ (
        rw (other, goes_on)
            (sym (
              append_assoc (upper c) (map lower (split t).0)
                (join_rest (map capitalize (split t).1)))),
        rw (other, goes_on) refl,
      )
    ]

-- A text without two spaces in a row.
unfoldable pub single_spaces : Bool → Chars → Bool
single_spaces inside [] = true
single_spaces inside (c ∷ t) =
    let after_space = single_spaces true t in
    let after_other = single_spaces false t in
    if c == space then not inside && after_space else after_other

pub collapse-single_spaces :
    (inside : Bool) (t : Chars) → single_spaces inside (collapse inside t) ≡ true
unfolding single_spaces collapse
collapse-single_spaces inside [] = refl
collapse-single_spaces inside (c ∷ t) = elim (Bool-cases (c == space)) [
  | inl gap ↦ elim (Bool-cases inside) [
    | inl again ↦ rw (gap, again) (collapse-single_spaces true t)
    | inr first_one ↦ rw (gap, first_one) (collapse-single_spaces true t)
  ]
  | inr other ↦ rw (other, other) (collapse-single_spaces false t)
]

pub collapse_same :
    (inside : Bool) (t : Chars) → single_spaces inside t ≡ true → collapse inside t ≡ t
unfolding single_spaces collapse
collapse_same inside [] h = refl
collapse_same inside (c ∷ t) h = elim (Bool-cases (c == space)) [
  | inl gap ↦ elim (Bool-cases inside) [
    | inl again ↦ absurd (ground arith)
    | inr first_one ↦
        let rest = collapse_same true t (rw (gap, first_one) at h) in
        rw (gap, first_one) (ap (λ r. space ∷ r) rest ∙ ap (λ d. d ∷ t) (sym (==→eq c space gap)))
  ]
  | inr other ↦ rw other (ap (λ r. c ∷ r) (collapse_same false t (rw other at h)))
]

-- Neither a capital nor a small letter is a space.
pub words-single_spaces :
    (inside begins : Bool) (t : Chars)
    → single_spaces inside t ≡ true
    → single_spaces inside (words begins t) ≡ true
unfolding single_spaces words word_char
words-single_spaces inside begins [] h = refl
words-single_spaces inside begins (c ∷ t) h = elim (Bool-cases (c == space)) [
  | inl gap ↦ elim (Bool-cases inside) [
    | inl again ↦ absurd (ground arith)
    | inr first_one ↦
        rw (gap, first_one) (words-single_spaces true true t (rw (gap, first_one) at h))
  ]
  | inr other ↦
      let rest = words-single_spaces false false t (rw other at h) in
      elim (Bool-cases begins) [
        | inr within ↦ rw (other, within, lower-space c, other) rest
        | inl starts ↦ elim (titled c) [
          | sharp two ↦ rw (other, starts, two) rest
          | single u one _ apart ↦ rw (other, starts, one, apart, other) rest
        ]
      ]
]

words-sharp : (t : Chars) → words true (83 ∷ (115 ∷ t)) ≡ 83 ∷ (115 ∷ words false t)
unfolding words word_char upper lower
words-sharp t = refl

pub words_settle : (begins : Bool) (t : Chars) → words begins (words begins t) ≡ words begins t
unfolding words word_char
words_settle begins [] = refl
words_settle begins (c ∷ t) = elim (Bool-cases (c == space)) [
  | inl gap ↦ rw gap (ap (λ r. space ∷ r) (words_settle true t))
  | inr other ↦
      let rest = words_settle false t in
      elim (Bool-cases begins) [
        | inr within ↦
            rw (other, within, lower-space c, other, lower_settles c) (ap (λ r. lower c ∷ r) rest)
        | inl starts ↦ elim (titled c) [
          | sharp two ↦
              rw (other, starts, two) (words-sharp (words false t) ∙ ap (λ r. 83 ∷ (115 ∷ r)) rest)
          | single u one same apart ↦
              rw (other, starts, one, apart, other, same) (ap (λ r. u ∷ r) rest)
        ]
      ]
]
