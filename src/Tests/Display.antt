-- ===== src/Tests/Display.antt =====
-- A text with markup, escaped, and the text of an error.
use open_beanie.Base.{◌≡◌, refl, false, ◌∷◌, ◌++◌, none, some, Text, text_eq, codes, All}
use open_beanie.Display.{Thrown, escape_html, short, describe_error, one_dot}
use open_beanie.Display.Escape.{is_markup, read_html, escape_html_safe}

abbrev tag : Text
tag = codes "<b a=\"&\">"

escape_html_safe_example :
    All (λ c. is_markup c ≡ false) (escape_html tag) × (read_html 0 (escape_html tag) ≡ tag)
escape_html_safe_example = escape_html_safe tag

shortened :
    short (codes "0x833589fcd6edb6e08f4c7c32d4f71b54bda02913")
    ≡ codes "0x833589" ++ (8230 ∷ codes "a02913")
unfolding short
shortened = refl

abbrev limited : Thrown
limited = record {
  name = some (codes "ApiError");
  status = some 429;
  code = none;
  retry_after = some (codes "30");
  message = some (codes "Slow down.");
  text = none;
}

described : describe_error limited ≡ codes "Slow down. Try again in 30s."
unfolding describe_error one_dot text_eq
described = refl
