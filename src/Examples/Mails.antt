-- ===== src/Examples/Mails.antt =====
-- A mail whose subject has line ends, and a template that was configured.
use jwt_allauth.Base.{◌≡◌, refl, none, some, [], ◌∷◌, ◌==◌, if◌then◌else◌}
use jwt_allauth.Confirmation.Rendering.{
  dictionary, get_template_path, Renderer, subject_line, splitlines, join_lines, strip, rstrip,
}
use jwt_allauth.Scaffold.Text.{codes, span}

-- The subject is at 1, the HTML body at 2, and there is no text body.
abbrev templates : Renderer
templates path =
    if path == 1
    then some (codes "Hi\nBcc: all\r\n")
    else if path == 2
    then some (codes " <p>")
    else none

one_line : subject_line (codes "Hi\nBcc: all\r\n") ≡ codes "Hi Bcc: all"
unfolding subject_line splitlines join_lines strip rstrip span
one_line = refl

-- A template in a dictionary is not found.
dictionary_is_not_read : get_template_path (dictionary ((1, 50) ∷ [])) 1 40 ≡ 40
unfolding get_template_path
dictionary_is_not_read = refl
