-- ===== src/Tests/Amounts.antt =====
-- Amounts that are read and printed.
use open_beanie.Base.{ℕ, ◌-◌, ◌*◌, ◌^◌, ◌≤◌, ◌<◌, ◌≡◌, refl, ◌++◌, some, codes, length}
use open_beanie.Base.Positional.{of_digits, digits_loop}
use open_beanie.Base.Strings.{trim, trim_start, to_string, of_string, digit, digit_value}
use open_beanie.Base.Result.{negsuc}
use open_beanie.Amounts.{
  Decimal, span_digits, split_decimal, strip_zeros, parse_decimal, group_digits, locale_string,
  drop_zeros, fraction_text, format_natural, format_usdc,
}
use open_beanie.Amounts.Exact.{Reads, parse_decimal_exact}

twelve_and_a_half : parse_decimal (codes " 012.5") 6 ≡ some (codes "12500000")
unfolding parse_decimal split_decimal span_digits strip_zeros trim trim_start of_string of_digits
    digit_value to_string digits_loop digit
twelve_and_a_half = refl

parse_decimal_exact_example :
    (p : Decimal) × (v : ℕ) × Reads (trim (codes " 012.5")) p
    × (length p.fraction ≤ 6)
    × (v ≡ of_string 10 (p.whole ++ p.fraction) * 10 ^ (6 - length p.fraction))
    × (0 < v)
    × (codes "12500000" ≡ to_string 10 v)
parse_decimal_exact_example =
    parse_decimal_exact (codes " 012.5") 6 (codes "12500000") twelve_and_a_half

printed : format_usdc (negsuc 1234567500000) 2 ≡ codes "-1,234,567.500001"
unfolding format_usdc format_natural locale_string group_digits fraction_text drop_zeros to_string
    digits_loop digit
printed = refl
