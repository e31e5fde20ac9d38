-- ===== src/Amounts.antt =====
-- ui.js: amounts of USDC as texts, without floating point.
pub mod Exact
use open_beanie.Base.{
  ℕ, suc, ◌+◌, ◌/◌, ◌%◌, ◌^◌, Bool, true, false, not, ◌&&◌, ◌==◌, ltb, if◌then◌else◌, List, [], ◌∷◌,
  ◌++◌, reverse, Option, none, some, Text, length, all,
}
use open_beanie.Base.Result.{ℤ, pos, negsuc}
use open_beanie.Base.Strings.{trim, pad_start, pad_end, to_string, of_string, is_digit}

abbrev pub usdc_decimals : ℕ
usdc_decimals = 6

-- The digits at the front of a text, and what follows them.
unfoldable pub span_digits : Text → Text × Text
span_digits [] = ([], [])
span_digits (c ∷ t) =
    let rest = span_digits t in if is_digit c then (c ∷ rest.0, rest.1) else ([], c ∷ t)

pub record Decimal : Type 0 where
  pub whole : Text
  pub fraction : Text

abbrev with_fraction : Text → Text → Option Decimal
with_fraction whole [] = some (record { whole = whole; fraction = [] })
with_fraction whole (c ∷ f) =
    if c == b'.' && not (length f == 0) && all is_digit f
    then some (record { whole = whole; fraction = f })
    else none

-- `/^\d+(\.\d+)?$/` and `split(".")`
unfoldable pub split_decimal : Text → Option Decimal
unfolding span_digits
split_decimal t =
    if length (span_digits t).0 == 0
    then none
    else with_fraction (span_digits t).0 (span_digits t).1

-- `replace(/^0+(?=\d)/, "")`
unfoldable pub strip_zeros : Text → Text
strip_zeros [] = []
strip_zeros (c ∷ []) = c ∷ []
strip_zeros (c ∷ d ∷ t) =
    let rest = strip_zeros (d ∷ t) in if c == b'0' && is_digit d then rest else c ∷ d ∷ t

unfoldable pub parse_decimal : Text → ℕ → Option Text
unfolding split_decimal strip_zeros
parse_decimal input decimals = elim (split_decimal (trim input)) [
  | none ↦ none
  | some p ↦
      let v = of_string 10 (strip_zeros (p.whole ++ pad_end decimals b'0' p.fraction)) in
      if ltb decimals (length p.fraction)
      then none
      else if ltb 0 v
      then some (to_string 10 v)
      else none
]

-- A comma behind every three digits, lowest first, that others follow.
unfoldable pub group_digits : Text → Text
group_digits (a ∷ b ∷ c ∷ d ∷ t) = a ∷ b ∷ c ∷ b',' ∷ group_digits (d ∷ t)
group_digits t = t

-- `toLocaleString("en-US")` of a natural number.
unfoldable pub locale_string : ℕ → Text
unfolding group_digits
locale_string n = reverse (group_digits (reverse (to_string 10 n)))

unfoldable pub drop_zeros : Text → Text
drop_zeros [] = []
drop_zeros (c ∷ t) = if c == b'0' then drop_zeros t else c ∷ t

-- The fraction, without the zeros at its end, and then with as many as are asked for.
unfoldable pub fraction_text : ℕ → ℕ → Text
unfolding drop_zeros
fraction_text part min_fraction =
    pad_end min_fraction b'0'
      (reverse (drop_zeros (reverse (pad_start usdc_decimals b'0' (to_string 10 part)))))

abbrev dotted : Text → Text
dotted [] = []
dotted (c ∷ t) = b'.' ∷ c ∷ t

unfoldable pub format_natural : ℕ → ℕ → Text
unfolding locale_string fraction_text
format_natural v min_fraction =
    locale_string (v / 10 ^ usdc_decimals)
    ++ dotted (fraction_text (v % 10 ^ usdc_decimals) min_fraction)

unfoldable pub format_usdc : ℤ → ℕ → Text
unfolding format_natural
format_usdc (pos v) min_fraction = format_natural v min_fraction
format_usdc (negsuc n) min_fraction = b'-' ∷ format_natural (suc n) min_fraction
