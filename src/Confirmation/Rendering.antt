-- ===== src/Confirmation/Rendering.antt =====
-- The rendering of a mail (`render_mail` of `JWTAllAuthAdapter` of jwt_allauth/adapter.py), and
-- `get_template_path` of jwt_allauth/utils.py. A text is the list of its code points; a path of a
-- template is a number.
pub mod Subject
use jwt_allauth.Base.{
  ℕ, Bool, true, false, ◌&&◌, ◌||◌, Option, none, some, List, [], ◌∷◌, ◌++◌, leb, ◌==◌,
  if◌then◌else◌, Result, ok, err, first,
}
use jwt_allauth.Scaffold.Text.{Chars, is_space, span}

-- Where `str.splitlines` breaks a text.
abbrev pub is_break : ℕ → Bool
is_break c = (leb 10 c && leb c 13) || (leb 28 c && leb c 30) || c == 133 || c == 8232 || c == 8233

-- A character of a line that goes on.
abbrev pub extend : ℕ → List Chars → List Chars
extend c [] = (c ∷ []) ∷ []
extend c (line ∷ rest) = (c ∷ line) ∷ rest

-- `t.splitlines()`, where `after_return` says whether a carriage return comes before the text.
unfoldable pub splitlines : Bool → Chars → List Chars
splitlines after_return [] = []
splitlines after_return (c ∷ t) =
    let rest = splitlines false t in
    let rest_after_return = splitlines true t in
    if after_return && c == 10
    then rest
    else if is_break c
    then [] ∷ (if c == 13 then rest_after_return else rest)
    else extend c rest

-- `" ".join(...)`
unfoldable pub join_lines : List Chars → Chars
join_lines [] = []
join_lines (line ∷ []) = line
join_lines (line ∷ lines) = line ++ 32 ∷ join_lines lines

abbrev pub is_blank : Chars → Bool
is_blank [] = true
is_blank (_ ∷ _) = false

unfoldable pub rstrip : Chars → Chars
rstrip [] = []
rstrip (c ∷ t) = let rest = rstrip t in if is_space c && is_blank rest then [] else c ∷ rest

-- `t.strip()`
unfoldable pub strip : Chars → Chars
unfolding span rstrip
strip t = rstrip (span is_space t).1

-- A subject on one line.
unfoldable pub subject_line : Chars → Chars
unfolding splitlines join_lines strip
subject_line t = strip (join_lines (splitlines false t))

-- `JWT_ALLAUTH_TEMPLATES`, which `getattr` reads: a dictionary has its keys as items and not as
-- attributes.
pub data Templates : Type 0 where
  dictionary : List (ℕ × ℕ) → Templates
  attributes : List (ℕ × ℕ) → Templates

unfoldable pub get_template_path : Templates → ℕ → ℕ → ℕ
get_template_path (dictionary items) constant default = default
get_template_path (attributes fields) constant default =
    elim (first (λ (f : ℕ × ℕ). f.0 == constant) fields) [ none ↦ default | some field ↦ field.1 ]

pub record Message : Type 0 where
  pub subject : Chars
  pub body : Chars
  pub html_alternative : Option Chars
  pub is_html : Bool

pub data RenderError : Type 0 where
  template_does_not_exist : RenderError

-- The bodies of a mail, as HTML and as text.
unfoldable pub choose_body : Chars → Option Chars → Option Chars → Result RenderError Message
choose_body subject html (some text) =
    ok (record { subject = subject; body = text; html_alternative = html; is_html = false })
choose_body subject (some html) none =
    ok (record { subject = subject; body = html; html_alternative = none; is_html = true })
choose_body subject none none = err template_does_not_exist

abbrev pub stripped : Option Chars → Option Chars
stripped none = none
stripped (some t) = some (strip t)

-- Django's templates, by path: none is one that does not exist.
abbrev pub Renderer : Type 0
Renderer = ℕ → Option Chars

-- The paths below the prefix of a mail: of a subject, an HTML body and a text body.
abbrev pub Prefixed : Type 0
Prefixed = ℕ × ℕ × ℕ

abbrev pub subject_template : Prefixed → Option ℕ → ℕ
subject_template prefixed none = prefixed.0
subject_template prefixed (some path) = path

-- `render_mail`, with the paths that were configured. `format_subject` is allauth's
-- `format_email_subject`.
unfoldable pub render_mail :
    (Chars → Chars) → Renderer → Prefixed → Option ℕ → Option ℕ → Result RenderError Message
unfolding subject_line choose_body
render_mail format_subject render prefixed subject_path template_path =
    elim (render (subject_template prefixed subject_path)) [
      | none ↦ err template_does_not_exist
      | some rendered ↦
          let subject = format_subject (subject_line rendered) in
          elim template_path [
            | none ↦
                choose_body subject (stripped (render prefixed.1)) (stripped (render prefixed.2))
            | some path ↦ elim (render path) [
              | none ↦ err template_does_not_exist
              | some html ↦ choose_body subject (some (strip html)) none
            ]
          ]
    ]
