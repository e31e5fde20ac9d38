-- ===== src/Display/Escape.antt =====
-- A text that is escaped reads back in HTML, and opens no tag and ends no attribute.
use open_beanie.Base.{
  ℕ, zero, suc, ◌≡◌, refl, sym, ap, ◌∙◌, Bool, true, false, ◌||◌, ◌==◌, if◌then◌else◌, [], ◌∷◌,
  ◌++◌, Option, none, some, Text, codes, All, All-append, Bool-cases, inl, inr, ==_iff,
}
use mathlib.Core.Path.{subst}
use open_beanie.Base.Strings.{starts_with}
use open_beanie.Display.{escape_unit, escape_html}

-- A character that HTML takes for markup in a text or in an attribute.
abbrev pub is_markup : ℕ → Bool
is_markup c = c == b'<' || c == b'>' || c == b'"' || c == b'\''

-- The character of an entity behind its ampersand, and the length of what stands there.
abbrev pub entity : Text → Option (ℕ × ℕ)
unfolding starts_with
entity t =
    if starts_with t (codes "amp;")
    then some (b'&', 4)
    else if starts_with t (codes "lt;")
    then some (b'<', 3)
    else if starts_with t (codes "gt;")
    then some (b'>', 3)
    else if starts_with t (codes "quot;")
    then some (b'"', 5)
    else if starts_with t (codes "#039;")
    then some (b'\'', 5)
    else none

-- A text of HTML as it is read, with the characters to pass over first.
unfoldable pub read_html : ℕ → Text → Text
unfolding starts_with
read_html n [] = []
read_html (suc n) (c ∷ t) = read_html n t
read_html zero (c ∷ t) =
    if c == b'&'
    then elim (entity t) [ none ↦ c ∷ read_html zero t | some e ↦ e.0 ∷ read_html e.1 t ]
    else c ∷ read_html zero t

-- What an entity of the five reads as.
special :
    (k c : ℕ) (t : Text)
    → (c == k) ≡ true
    → read_html 0 (escape_unit k ++ t) ≡ k ∷ read_html 0 t
    → read_html 0 (escape_unit c ++ t) ≡ c ∷ read_html 0 t
special k c t is_k h =
    subst (λ (x : ℕ). read_html 0 (escape_unit x ++ t) ≡ x ∷ read_html 0 t)
      (sym ((==_iff c k).0 is_k)) h

amp : (t : Text) → read_html 0 (escape_unit b'&' ++ t) ≡ b'&' ∷ read_html 0 t
unfolding read_html escape_unit starts_with
amp t = refl

lt : (t : Text) → read_html 0 (escape_unit b'<' ++ t) ≡ b'<' ∷ read_html 0 t
unfolding read_html escape_unit starts_with
lt t = refl

gt : (t : Text) → read_html 0 (escape_unit b'>' ++ t) ≡ b'>' ∷ read_html 0 t
unfolding read_html escape_unit starts_with
gt t = refl

quot : (t : Text) → read_html 0 (escape_unit b'"' ++ t) ≡ b'"' ∷ read_html 0 t
unfolding read_html escape_unit starts_with
quot t = refl

apos : (t : Text) → read_html 0 (escape_unit b'\'' ++ t) ≡ b'\'' ∷ read_html 0 t
unfolding read_html escape_unit starts_with
apos t = refl

read_html-escape_unit : (c : ℕ) (t : Text) → read_html 0 (escape_unit c ++ t) ≡ c ∷ read_html 0 t
unfolding escape_unit read_html
read_html-escape_unit c t = elim (Bool-cases (c == b'&')) [
  | inl is_amp ↦ special b'&' c t is_amp (amp t)
  | inr e1 ↦ elim (Bool-cases (c == b'<')) [
    | inl is_lt ↦ special b'<' c t is_lt (lt t)
    | inr e2 ↦ elim (Bool-cases (c == b'>')) [
      | inl is_gt ↦ special b'>' c t is_gt (gt t)
      | inr e3 ↦ elim (Bool-cases (c == b'"')) [
        | inl is_quot ↦ special b'"' c t is_quot (quot t)
        | inr e4 ↦ elim (Bool-cases (c == b'\'')) [
          | inl is_apos ↦ special b'\'' c t is_apos (apos t)
          | inr e5 ↦ rw (escape_unit, e1, e2, e3, e4, e5, read_html, e1) refl
        ]
      ]
    ]
  ]
]

read_html-escape_html : (t : Text) → read_html 0 (escape_html t) ≡ t
unfolding escape_html read_html
read_html-escape_html [] = refl
read_html-escape_html (c ∷ t) =
    read_html-escape_unit c (escape_html t) ∙ ap (λ (s : Text). c ∷ s) (read_html-escape_html t)

abbrev Plain : Text → Type 0
Plain t = All (λ c. is_markup c ≡ false) t

-- What is put for a character holds no markup.
escape_unit-Plain : (c : ℕ) → Plain (escape_unit c)
unfolding escape_unit
escape_unit-Plain c = elim (Bool-cases (c == b'&')) [
  | inl e ↦ rw (escape_unit, e) (refl, (refl, (refl, (refl, (refl, tt)))))
  | inr e1 ↦ elim (Bool-cases (c == b'<')) [
    | inl e ↦ rw (escape_unit, e1, e) (refl, (refl, (refl, (refl, tt))))
    | inr e2 ↦ elim (Bool-cases (c == b'>')) [
      | inl e ↦ rw (escape_unit, e1, e2, e) (refl, (refl, (refl, (refl, tt))))
      | inr e3 ↦ elim (Bool-cases (c == b'"')) [
        | inl e ↦ rw (escape_unit, e1, e2, e3, e) (refl, (refl, (refl, (refl, (refl, (refl, tt))))))
        | inr e4 ↦ elim (Bool-cases (c == b'\'')) [
          | inl e ↦
              rw (escape_unit, e1, e2, e3, e4, e) (refl, (refl, (refl, (refl, (refl, (refl, tt))))))
          | inr e5 ↦ rw (escape_unit, e1, e2, e3, e4, e5) (rw (e2, e3, e4, e5) refl, tt)
        ]
      ]
    ]
  ]
]

escape_html-Plain : (t : Text) → Plain (escape_html t)
unfolding escape_html
escape_html-Plain [] = tt
escape_html-Plain (c ∷ t) =
    All-append (λ u. is_markup u ≡ false) (escape_unit c) (escape_html t) (escape_unit-Plain c)
      (escape_html-Plain t)

-- A text that is escaped holds none of the characters of markup, which are both quotes and both
-- angle brackets, and reads back as the text where its entities are read as HTML does.
pub escape_html_safe :
    (t : Text) → All (λ c. is_markup c ≡ false) (escape_html t) × (read_html 0 (escape_html t) ≡ t)
escape_html_safe t = (escape_html-Plain t, read_html-escape_html t)
