-- ===== src/Scaffold/Lists.antt =====
-- An entry added to a list of a settings or URL file: what becomes of the text.
use jwt_allauth.Base.{ℕ, ◌≡◌, ◌⊎◌, Bool, false, ◌||◌, [], ◌∷◌, ◌++◌, All}
use jwt_allauth.Scaffold.Text.{Chars, Matcher, newline, is_match}

-- What a replacement puts in the place of a closing bracket.
abbrev pub addition : Chars → Chars
addition new = b',' ∷ (newline ∷ (new ++ (newline ∷ b']' ∷ [])))

-- What may stand between the last entry of a list and its closing bracket.
abbrev pub IsSeparator : ℕ → Type 0
IsSeparator c = (c ≡ b',') ⊎ (c ≡ newline)

-- `out` is `t` where some closing brackets, with the commas and line ends before them, gave way to
-- the new entry and a bracket.
pub data Grown (new : Chars) : Chars → Chars → Type 0 where
  done : Grown new [] []
  keep : (c : ℕ) {t out : Chars} → Grown new t out → Grown new (c ∷ t) (c ∷ out)
  grow :
      (kept gap : Chars) {t rest out out' : Chars}
      → t ≡ kept ++ (gap ++ b']' ∷ rest)
      → All IsSeparator gap
      → out' ≡ kept ++ (addition new ++ out)
      → Grown new rest out
      → Grown new t out'

-- Whether the pattern matches at some place.
unfoldable pub finds : Matcher → Chars → Bool
finds m [] = false
finds m (c ∷ t) = is_match (m (c ∷ t)) || finds m t
