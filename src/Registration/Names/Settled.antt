-- ===== src/Registration/Names/Settled.antt =====
-- A name that was accepted is in a normal form.

use jwt_allauth.Base.{
  ℕ, ◌-◌, ◌≡◌, ◌⊎◌, refl, ap, subst, ◌∙◌, inl, inr, Bool, true, false, not, ◌&&◌, ◌||◌, [], ◌∷◌,
  ◌++◌, arith, leb, ◌==◌, if◌then◌else◌, Bool-cases, ok, err, exists,
}
use jwt_allauth.Failure.{validation_error}
use jwt_allauth.Scaffold.Text.{Chars}
use jwt_allauth.Registration.Names.{
  space, is_allowed, rest_matches, matches, collapse, lower, upper, validate_name,
}
use jwt_allauth.Registration.Names.Words.{
  word_char, words, words-split, collapse-single_spaces, collapse_same, words-single_spaces,
  words_settle,
}

-- The capital of ÿ, which the pattern does not have.
abbrev pub has_outsider : Chars → Bool
has_outsider t = exists (λ c. c == 376) t

-- What becomes of a character of the pattern.
data Kept (cs : Chars) : Type 0 where
  two_letters : cs ≡ 83 ∷ 115 ∷ [] → Kept cs
  outsider : cs ≡ 376 ∷ [] → Kept cs
  letter : (d : ℕ) → cs ≡ d ∷ [] → is_allowed d ≡ true → Kept cs

kept : (begins : Bool) (c : ℕ) → is_allowed c ≡ true → Kept (word_char begins c)
unfolding word_char upper lower is_allowed
kept false c h = letter (lower c) refl (ground arith)
kept true c h = elim (Bool-cases (c == 223)) [
  | inl is_sharp ↦ two_letters (rw is_sharp refl)
  | inr other ↦ elim (Bool-cases (c == 255)) [
    | inl is_last ↦ outsider (rw (other, is_last) refl)
    | inr other' ↦
        elim (Bool-cases
          ((leb 97 c && leb c 122) || (leb 224 c && leb c 246) || (leb 248 c && leb c 254))) [
            | inl small ↦ letter (c - 32) (rw (other, other', small) refl) (ground arith)
            | inr large ↦ letter c (rw (other, other', large) refl) (ground arith)
          ]
  ]
]

space_allowed : is_allowed space ≡ true
unfolding is_allowed
space_allowed = refl

or_false : (b : Bool) → (b || false) ≡ b
or_false true = refl
or_false false = refl

-- A letter in front changes nothing.
letter-matches :
    (d : ℕ) (t : Chars)
    → is_allowed d ≡ true
    → rest_matches t ≡ not (has_outsider t)
    → (rest_matches (d ∷ t) ≡ not (has_outsider (d ∷ t)))
      × (matches (d ∷ t) ≡ not (has_outsider (d ∷ t)))
unfolding rest_matches matches is_allowed exists
letter-matches d t h same =
    let no_end : (d == 10) ≡ false = ground arith in
    let inside : (d == 376) ≡ false = ground arith in
    (rw (h, no_end, inside) (or_false (rest_matches t) ∙ same), rw (h, inside) same)

-- The characters of a word in front of a text.
word_char-matches :
    (begins : Bool) (c : ℕ) (t : Chars)
    → is_allowed c ≡ true
    → rest_matches t ≡ not (has_outsider t)
    → let u = word_char begins c ++ t in
      (rest_matches u ≡ not (has_outsider u)) × (matches u ≡ not (has_outsider u))
unfolding rest_matches matches is_allowed exists
word_char-matches begins c t h same = elim (kept begins c h) [
  | two_letters e ↦ rw e (letter-matches 83 (115 ∷ t) refl (letter-matches 115 t refl same).0)
  | outsider e ↦ rw e (refl, refl)
  | letter d e fits ↦ rw e (letter-matches d t fits same)
]

-- Behind the first character: a character of the pattern, or a line end that is the last.
rest_matches-cases :
    (c : ℕ) (t : Chars)
    → rest_matches (c ∷ t) ≡ true
    → ((is_allowed c ≡ true) × (rest_matches t ≡ true)) ⊎ ((c ≡ 10) × (t ≡ []))
unfolding rest_matches
rest_matches-cases c [] h = elim (Bool-cases (is_allowed c)) [
  | inl fits ↦ inl (fits, refl)
  | inr other ↦ inr (ground arith, refl)
]
rest_matches-cases c (d ∷ t) h = inl (ground arith, ground arith)

rest_matches-cons :
    (c : ℕ) (t : Chars) → is_allowed c ≡ true → rest_matches t ≡ true → rest_matches (c ∷ t) ≡ true
unfolding rest_matches
rest_matches-cons c t fits rest = rw (fits, rest) refl

-- A line end that is the last stays.
words-end :
    (begins : Bool)
    → rest_matches (words begins (10 ∷ [])) ≡ not (has_outsider (words begins (10 ∷ [])))
unfolding words word_char upper lower rest_matches is_allowed exists
words-end true = refl
words-end false = refl

words-rest_matches :
    (begins : Bool) (t : Chars)
    → rest_matches t ≡ true
    → rest_matches (words begins t) ≡ not (has_outsider (words begins t))
unfolding words rest_matches exists
words-rest_matches begins [] h = refl
words-rest_matches begins (c ∷ t) h = elim (rest_matches-cases c t h) [
  | inr (line_end, last) ↦ rw (line_end, last) (words-end begins)
  | inl (fits, rest) ↦ elim (Bool-cases (c == space)) [
    | inl gap ↦
        rw gap
          (letter-matches space (words true t) space_allowed (words-rest_matches true t rest)).0
    | inr other ↦
        rw other
          (word_char-matches begins c (words false t) fits (words-rest_matches false t rest)).0
  ]
]

collapse-rest_matches :
    (inside : Bool) (t : Chars) → rest_matches t ≡ true → rest_matches (collapse inside t) ≡ true
unfolding collapse rest_matches
collapse-rest_matches inside [] h = refl
collapse-rest_matches inside (c ∷ t) h = elim (rest_matches-cases c t h) [
  | inr (line_end, last) ↦ rw (line_end, last) refl
  | inl (fits, rest) ↦ elim (Bool-cases (c == space)) [
    | inr other ↦
        rw other (rest_matches-cons c (collapse false t) fits (collapse-rest_matches false t rest))
    | inl gap ↦ elim (Bool-cases inside) [
      | inl again ↦ rw (gap, again) (collapse-rest_matches true t rest)
      | inr first_one ↦
          rw (gap, first_one)
            (rest_matches-cons space (collapse true t) space_allowed
              (collapse-rest_matches true t rest))
    ]
  ]
]

matches-first :
    (c : ℕ) (t : Chars) → matches (c ∷ t) ≡ true → (is_allowed c ≡ true) × (rest_matches t ≡ true)
unfolding matches
matches-first c t h = (ground arith, ground arith)

matches-cons :
    (c : ℕ) (t : Chars) → is_allowed c ≡ true → rest_matches t ≡ true → matches (c ∷ t) ≡ true
unfolding matches
matches-cons c t fits rest = rw (fits, rest) refl

words-matches :
    (t : Chars) → matches t ≡ true → matches (words true t) ≡ not (has_outsider (words true t))
unfolding words matches
words-matches [] h = absurd (cc)
words-matches (c ∷ t) h =
    let (fits, rest) = matches-first c t h in
    elim (Bool-cases (c == space)) [
      | inl gap ↦
          rw gap
            (letter-matches space (words true t) space_allowed (words-rest_matches true t rest)).1
      | inr other ↦
          rw other
            (word_char-matches true c (words false t) fits (words-rest_matches false t rest)).1
    ]

collapse-matches : (t : Chars) → matches t ≡ true → matches (collapse false t) ≡ true
unfolding collapse
collapse-matches [] h = h
collapse-matches (c ∷ t) h =
    let (fits, rest) = matches-first c t h in
    elim (Bool-cases (c == space)) [
      | inl gap ↦
          rw gap
            (matches-cons space (collapse true t) space_allowed (collapse-rest_matches true t rest))
      | inr other ↦
          rw other (matches-cons c (collapse false t) fits (collapse-rest_matches false t rest))
    ]

-- What an accepted name becomes.
abbrev pub normal : Chars → Chars
normal t = words true (collapse false t)

validate_name-normal :
    (t : Chars)
    → validate_name t ≡ (if not (matches t) then err validation_error else ok (normal t))
unfolding validate_name
validate_name-normal t = rw ((words-split (collapse false t)).0) refl

normal_settles : (t : Chars) → normal (normal t) ≡ normal t
normal_settles t =
    let u = collapse false t in
    ap (words true) (
      collapse_same false (words true u)
        (words-single_spaces false true u (collapse-single_spaces false t)))
    ∙ words_settle true u

double_not :
    (b : Bool) (t : Chars)
    → (if not (not b) then err validation_error else ok t)
      ≡ (if b then err validation_error else ok t)
double_not true t = refl
double_not false t = refl

-- A name that is accepted is in a normal form: handed in again it is accepted and left as it is,
-- unless a word of it starts with the capital of ÿ, for which it is refused.
pub name_settles :
    (t t' : Chars)
    → validate_name t ≡ ok t'
    → validate_name t' ≡ (if has_outsider t' then err validation_error else ok t')
name_settles t t' h = elim (Bool-cases (matches t)) [
  | inr refused ↦ let answer = validate_name-normal t in absurd (ground arith)
  | inl accepted ↦
      let first_run = validate_name-normal t in
      let second_run = validate_name-normal (normal t) in
      let its : normal t ≡ t' = ground arith in
      let again = words-matches (collapse false t) (collapse-matches t accepted) in
      subst (λ u. validate_name u ≡ (if has_outsider u then err validation_error else ok u)) its
        (rw (second_run, again, normal_settles t) (double_not (has_outsider (normal t)) (normal t)))
]
