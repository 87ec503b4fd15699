-- ===== src/Confirmation/Rendering/Subject.antt =====
-- The subject of a rendered mail is on one line.
use jwt_allauth.Base.{
  ℕ, ◌≡◌, is_some, Bool, true, false, ◌||◌, Option, none, some, List, ok, exists,
}
use jwt_allauth.Scaffold.Text.{Chars}
use jwt_allauth.Confirmation.Rendering.{
  is_break, strip, subject_line, Message, Renderer, Prefixed, render_mail,
}

abbrev pub has_break : Chars → Bool
has_break t = exists is_break t

abbrev some_break : List Chars → Bool
some_break lines = exists has_break lines

-- Whether there is a template for a body.
abbrev pub has_body : Renderer → Prefixed → Option ℕ → Bool
has_body render prefixed none = is_some (render prefixed.1) || is_some (render prefixed.2)
has_body render prefixed (some path) = is_some (render path)

-- The body of a message: text where there is a template for it, beside the HTML if that is there
-- too, and otherwise HTML.
pub data Body (render : Renderer) (prefixed : Prefixed) (m : Message) : Option ℕ → Type 0 where
  plain :
      (text : Chars)
      → render prefixed.2 ≡ some text
      → m.body ≡ strip text
      → m.is_html ≡ false
      → is_some m.html_alternative ≡ is_some (render prefixed.1)
      → Body render prefixed m none
  only_html :
      (html : Chars)
      → render prefixed.2 ≡ none
      → render prefixed.1 ≡ some html
      → m.body ≡ strip html
      → m.is_html ≡ true
      → m.html_alternative ≡ none
      → Body render prefixed m none
  configured :
      (path : ℕ) (html : Chars)
      → render path ≡ some html
      → m.body ≡ strip html
      → m.is_html ≡ true
      → m.html_alternative ≡ none
      → Body render prefixed m (some path)

module _ (format_subject : Chars → Chars) (render : Renderer) (prefixed : Prefixed)
    (subject_path : Option ℕ) (rendered : Chars) where
  abbrev Made : Option ℕ → Type 0
  Made template_path =
      (m : Message) × (render_mail format_subject render prefixed subject_path template_path ≡ ok m)
      × (m.subject ≡ format_subject (subject_line rendered))
      × Body render prefixed m template_path

  abbrev message : Chars → Option Chars → Bool → Message
  message body html_alternative is_html = record {
    subject = format_subject (subject_line rendered);
    body = body;
    html_alternative = html_alternative;
    is_html = is_html;
  }
