-- ===== src/Scaffold/Text.antt =====
-- The text edits of jwt_allauth/bin/jwt_allauth.py: Python's `in`, `str.replace` and `re.sub`, the last
-- for the patterns that the file has. A text is the list of its code points.
use Prim.Native.Char.{code}
use Prim.Native.String.{String}
use jwt_allauth.Base.{
  ℕ, zero, suc, Bool, true, false, ◌&&◌, ◌||◌, Option, none, some, List, [], ◌∷◌, ◌++◌, leb, ◌==◌,
  if◌then◌else◌, length,
}

abbrev pub Chars : Type 0
Chars = List ℕ

abbrev pub codes : String → Chars
codes String.[] = []
codes (String.◌∷◌ c s) = code c ∷ codes s

abbrev pub newline : ℕ
newline = 10

-- Lines, each with its end.
unfoldable pub lines : List String → Chars
lines [] = []
lines (l ∷ ls) = codes l ++ newline ∷ lines ls

-- The text without a leading `p`.
unfoldable pub strip_prefix : Chars → Chars → Option Chars
strip_prefix [] t = some t
strip_prefix (p ∷ ps) [] = none
strip_prefix (p ∷ ps) (c ∷ t) = let rest = strip_prefix ps t in if p == c then rest else none

abbrev pub is_match {ℓ} : {A : Type ℓ} → Option A → Bool
is_match none = false
is_match (some _) = true

-- `p in t`
unfoldable pub contains : Chars → Chars → Bool
unfolding strip_prefix
contains p [] = is_match (strip_prefix p [])
contains p (c ∷ t) = is_match (strip_prefix p (c ∷ t)) || contains p t

-- What a test takes from the front, and the rest.
unfoldable pub span : (ℕ → Bool) → Chars → Chars × Chars
span p [] = ([], [])
span p (c ∷ t) = let (taken, rest) = span p t in if p c then (c ∷ taken, rest) else ([], c ∷ t)

-- What Python's `\s` takes of a text.
abbrev pub is_space : ℕ → Bool
is_space c =
    (leb 9 c && leb c 13)
    || (leb 28 c && leb c 32)
    || c == 133
    || c == 160
    || c == 5760
    || (leb 8192 c && leb c 8202)
    || c == 8232
    || c == 8233
    || c == 8239
    || c == 8287
    || c == 12288

abbrev pub is_comma : ℕ → Bool
is_comma c = c == b','

abbrev pub is_newline : ℕ → Bool
is_newline c = c == newline

-- What a pattern makes of the text at one place: the replacement and the text after the match.
abbrev pub Matcher : Type 0
Matcher = Chars → Option (Chars × Chars)

-- `re.sub`: from left to right, the text after a match goes on behind it. No match is empty.
unfoldable pub sub : Matcher → ℕ → Chars → Option Chars
sub m zero t = none
sub m (suc fuel) [] = some []
sub m (suc fuel) (c ∷ t) = elim (m (c ∷ t)) [
  | none ↦ elim (sub m fuel t) [ none ↦ none | some out ↦ some (c ∷ out) ]
  | some (replacement, rest) ↦ elim (sub m fuel rest) [
    | none ↦ none
    | some out ↦ some (replacement ++ out)
  ]
]

unfoldable pub sub_all : Matcher → Chars → Option Chars
unfolding sub
sub_all m t = sub m (suc (length t)) t

-- `t.replace(old, new)`
unfoldable pub literal : Chars → Chars → Matcher
unfolding strip_prefix
literal old new t = elim (strip_prefix old t) [ none ↦ none | some rest ↦ some (new, rest) ]

-- Group 1 of the patterns for a list, `name\s*=\s*\[`.
unfoldable pub opening : Chars → Chars → Option (Chars × Chars)
unfolding strip_prefix span
opening name t = elim (strip_prefix name t) [
  | none ↦ none
  | some rest ↦
      let (before, rest') = span is_space rest in
      elim (strip_prefix (b'=' ∷ []) rest') [
        | none ↦ none
        | some rest'' ↦
            let (behind, list) = span is_space rest'' in
            elim (strip_prefix (b'[' ∷ []) list) [
              | none ↦ none
              | some body ↦ some (name ++ (before ++ (b'=' ∷ (behind ++ b'[' ∷ []))), body)
            ]
      ]
]

-- Group 3, `,*\n*]`: the text behind it.
unfoldable pub closing : Chars → Option Chars
unfolding strip_prefix span
closing t = strip_prefix (b']' ∷ []) (span is_newline (span is_comma t).1).1

-- Group 2, `.*?` up to the first group 3, and the text behind that.
unfoldable pub body : Chars → Option (Chars × Chars)
unfolding closing
body [] = none
body (c ∷ t) = elim (closing (c ∷ t)) [
  | some rest ↦ some ([], rest)
  | none ↦ elim (body t) [ none ↦ none | some (items, rest) ↦ some (c ∷ items, rest) ]
]

-- The pattern `(name\s*=\s*\[)(.*?)(,*\n*])` with the replacement `\1\2,\n{new}\n]`.
unfoldable pub list_entry : Chars → Chars → Matcher
unfolding opening body
list_entry name new t = elim (opening name t) [
  | none ↦ none
  | some (head, rest) ↦ elim (body rest) [
    | none ↦ none
    | some (items, after) ↦
        some (head ++ (items ++ (b',' ∷ (newline ∷ (new ++ (newline ∷ b']' ∷ []))))), after)
  ]
]

-- The text behind the first `p`.
unfoldable pub behind : Chars → Chars → Option Chars
unfolding strip_prefix
behind p [] = strip_prefix p []
behind p (c ∷ t) = elim (strip_prefix p (c ∷ t)) [ some rest ↦ some rest | none ↦ behind p t ]

-- The pattern `""".*?"""`, replaced by nothing.
unfoldable pub docstring : Matcher
unfolding behind
docstring t =
    let quotes = b'"' ∷ b'"' ∷ b'"' ∷ [] in
    elim (strip_prefix quotes t) [
      | none ↦ none
      | some rest ↦ elim (behind quotes rest) [ none ↦ none | some after ↦ some ([], after) ]
    ]
