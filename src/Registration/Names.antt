-- ===== src/Registration/Names.antt =====
-- The names of an account (`validate_first_name` and `validate_last_name` of
-- jwt_allauth/registration/serializers.py), with Python's `str.split`, `str.join` and `str.capitalize`
-- on the characters that the pattern admits. A text is the list of its code points.
pub mod Words
pub mod Settled
use jwt_allauth.Base.{
  ℕ, zero, suc, ◌+◌, ◌-◌, ◌≡◌, refl, sym, ap, ◌∙◌, inl, inr, Bool, true, false, not, ◌&&◌, ◌||◌,
  List, [], ◌∷◌, ◌++◌, map, arith, leb, ◌==◌, if◌then◌else◌, Bool-cases, Result, ok, err, exists,
}
use jwt_allauth.Failure.{Failure, validation_error}
use jwt_allauth.Scaffold.Text.{Chars}

abbrev pub space : ℕ
space = 32

-- A character of `[A-Za-zÀ-ÖØ-öø-ÿ ]`
unfoldable pub is_allowed : ℕ → Bool
is_allowed c =
    c == space
    || (leb 65 c && leb c 90)
    || (leb 97 c && leb c 122)
    || (leb 192 c && leb c 214)
    || (leb 216 c && leb c 246)
    || (leb 248 c && leb c 255)

abbrev is_empty : Chars → Bool
is_empty [] = true
is_empty (_ ∷ _) = false

-- The pattern behind its first character: `$` is at the end, and before a line end at the end.
unfoldable pub rest_matches : Chars → Bool
unfolding is_allowed
rest_matches [] = true
rest_matches (c ∷ t) = (is_allowed c && rest_matches t) || (c == 10 && is_empty t)

unfoldable pub matches : Chars → Bool
unfolding rest_matches
matches [] = false
matches (c ∷ t) = is_allowed c && rest_matches t

-- `re.sub(' +', ' ', t)`, from where a run of spaces goes on or does not.
unfoldable pub collapse : Bool → Chars → Chars
collapse inside [] = []
collapse inside (c ∷ t) =
    let after_space = collapse true t in
    let after_other = collapse false t in
    if c == space then (if inside then after_space else space ∷ after_space) else c ∷ after_other

-- `t.split(" ")`: the first piece and the others
unfoldable pub split : Chars → Chars × List Chars
split [] = ([], [])
split (c ∷ t) =
    let (piece, pieces) = split t in
    if c == space then ([], piece ∷ pieces) else (c ∷ piece, pieces)

-- `" ".join(...)`
unfoldable pub join_rest : List Chars → Chars
join_rest [] = []
join_rest (piece ∷ pieces) = space ∷ (piece ++ join_rest pieces)

unfoldable pub lower : ℕ → ℕ
lower c =
    if (leb 65 c && leb c 90) || (leb 192 c && leb c 214) || (leb 216 c && leb c 222)
    then c + 32
    else c

-- A character in title case: ß is two characters then, and ÿ is a capital of another block.
unfoldable pub upper : ℕ → Chars
upper c =
    if c == 223
    then 83 ∷ 115 ∷ []
    else if c == 255
    then 376 ∷ []
    else if (leb 97 c && leb c 122) || (leb 224 c && leb c 246) || (leb 248 c && leb c 254)
    then (c - 32) ∷ []
    else c ∷ []

unfoldable pub capitalize : Chars → Chars
unfolding upper lower
capitalize [] = []
capitalize (c ∷ t) = upper c ++ map lower t

unfoldable pub validate_name : Chars → Result Failure Chars
unfolding matches collapse split join_rest capitalize
validate_name t =
    let (piece, pieces) = split (collapse false t) in
    if not (matches t)
    then err validation_error
    else ok (capitalize piece ++ join_rest (map capitalize pieces))
