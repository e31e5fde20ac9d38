-- ===== src/Display.antt =====
-- ui.js: `escapeHtml`, `short` and `describeError`.
pub mod Escape
use open_beanie.Base.{
  ℕ, zero, suc, ◌-◌, Bool, true, false, not, ◌&&◌, ◌||◌, ◌==◌, ltb, if◌then◌else◌, List, [], ◌∷◌,
  ◌++◌, Option, none, some, Text, text_eq, codes, take, drop, length,
}
use open_beanie.Base.Strings.{to_string}
use open_beanie.Chains.{has_text}

-- The entity of a character, or the character.
unfoldable pub escape_unit : ℕ → Text
escape_unit c =
    if c == b'&'
    then codes "&amp;"
    else if c == b'<'
    then codes "&lt;"
    else if c == b'>'
    then codes "&gt;"
    else if c == b'"'
    then codes "&quot;"
    else if c == b'\''
    then codes "&#039;"
    else c ∷ []

unfoldable pub escape_html : Text → Text
unfolding escape_unit
escape_html [] = []
escape_html (c ∷ t) = escape_unit c ++ escape_html t

-- The first eight and the last six characters of a long text.
unfoldable pub short : Text → Text
short t = if ltb 16 (length t) then take 8 t ++ (8230 ∷ drop (length t - 6) t) else t

-- A value that was thrown; `text` is what `String` makes of it, if it is no false value.
pub record Thrown : Type 0 where
  pub name : Option Text
  pub status : Option ℕ
  pub code : Option ℕ
  pub retry_after : Option Text
  pub message : Option Text
  pub text : Option Text

abbrev pub is_name : Option Text → Text → Bool
unfolding text_eq
is_name none t = false
is_name (some n) t = text_eq n t

abbrev pub is_number : Option ℕ → ℕ → Bool
is_number none n = false
is_number (some m) n = m == n

abbrev pub or_text : Option Text → Text → Text
or_text none t = t
or_text (some []) t = t
or_text (some (c ∷ s)) t = c ∷ s

-- `.replace("..", ".")`, the first place
unfoldable pub one_dot : Text → Text
one_dot [] = []
one_dot (c ∷ []) = c ∷ []
one_dot (c ∷ d ∷ t) =
    let rest = one_dot (d ∷ t) in if c == b'.' && d == b'.' then b'.' ∷ t else c ∷ rest

abbrev pub wait_text : Option Text → Text
wait_text none = codes " Try again later."
wait_text (some []) = codes " Try again later."
wait_text (some (c ∷ t)) = codes " Try again in " ++ (c ∷ t ++ codes "s.")

-- A message that is undefined is printed as that in a template.
abbrev pub printed : Option Text → Text
printed none = codes "undefined"
printed (some t) = t

unfoldable pub describe_error : Thrown → Text
unfolding text_eq one_dot
describe_error e =
    if is_name e.name (codes "NotAllowedError") || is_name e.name (codes "AbortError")
    then codes "The passkey or wallet prompt was cancelled or timed out."
    else if is_name e.name (codes "ApiError") && is_number e.status 429
    then one_dot (printed e.message ++ (b'.' ∷ wait_text e.retry_after))
    else if is_number e.code 4001
    then codes "You rejected the request in your wallet."
    else take 300 (or_text e.message (or_text e.text (codes "Something went wrong.")))
