-- ===== src/Identity/Hex.antt =====
-- The hex digits of bytes, `toHex`: how many there are, and the number that they stand for.
use open_beanie.Base.{
  ℕ, zero, suc, ◌+◌, ◌*◌, ◌/◌, ◌%◌, ◌<◌, ◌≡◌, refl, Bool, true, List, [], ◌∷◌, map, Text,
  if◌then◌else◌, false, Bool-cases, inl, inr, text_eq, length, All, arith, text_eq→eq,
}
use mathlib.Core.List.{foldl}
use open_beanie.Base.Positional.{of_digits, low_digits, digits_loop}
use open_beanie.Base.Strings.{
  digit, to_string, of_string, pad_start, digit_value, digit_value-digit,
}
use open_beanie.Identity.{to_hex}

abbrev two_digits : ℕ → Text
two_digits b = digit (b / 16) ∷ digit (b % 16) ∷ []

prints : ℕ → Bool
unfolding text_eq to_string
prints b = text_eq (pad_start 2 b'0' (to_string 16 b)) (two_digits b)

-- `count` numbers from `b` on print as two digits.
print_from : ℕ → ℕ → Bool
unfolding prints
print_from b zero = true
print_from b (suc count) = if prints b then print_from (b + 1) count else false

hex_table : print_from 0 256 ≡ true
unfolding print_from prints text_eq to_string digit low_digits digits_loop
hex_table = refl

from_here :
    (count b i : ℕ)
    → prints b ≡ true
    → print_from (b + 1) count ≡ true
    → i < suc count
    → ((j : ℕ) → print_from (b + 1) count ≡ true → j < count → prints ((b + 1) + j) ≡ true)
    → prints (b + i) ≡ true
from_here count b zero first rest less later = let same : b + 0 ≡ b = omega arith in rw same first
from_here count b (suc i) first rest less later =
    let same : b + suc i ≡ (b + 1) + i = omega arith in rw same (later i rest (omega arith))

print_from-prints : (count b i : ℕ) → print_from b count ≡ true → i < count → prints (b + i) ≡ true
unfolding print_from
print_from-prints zero b i table less = absurd (omega (less, arith))
print_from-prints (suc count) b i table less = elim (Bool-cases (prints b)) [
  | inr e ↦ cc (rw (print_from, e) at table)
  | inl e ↦
      from_here count b i e (rw (print_from, e) at table) less (print_from-prints count (b + 1))
]

hex_byte : (b : ℕ) → b < 256 → pad_start 2 b'0' (to_string 16 b) ≡ two_digits b
unfolding prints
hex_byte b h =
    let same : 0 + b ≡ b = omega arith in
    text_eq→eq _ _ (rw same at (print_from-prints 256 0 b hex_table h))

pub length-to_hex :
    (bytes : List ℕ) → All (λ b. b < 256) bytes → length (to_hex bytes) ≡ 2 * length bytes
unfolding to_hex
length-to_hex [] h = omega arith
length-to_hex (b ∷ bytes) (h, hs) = rw (hex_byte b h) (omega (arith, length-to_hex bytes hs))

hex_value :
    (n : ℕ) (bytes : List ℕ)
    → All (λ b. b < 256) bytes
    → foldl (λ m d. m * 16 + d) n (map digit_value (to_hex bytes))
      ≡ foldl (λ m d. m * 256 + d) n bytes
unfolding to_hex
hex_value n [] h = refl
hex_value n (b ∷ bytes) (h, hs) =
    let same : (n * 16 + b / 16) * 16 + b % 16 ≡ n * 256 + b = omega arith in
    rw
      (
        hex_byte b h,
        digit_value-digit (b / 16) (omega arith),
        digit_value-digit (b % 16) (omega arith),
        same,
      )
      (hex_value (n * 256 + b) bytes hs)

-- `BigInt("0x" + toHex(bytes))` reads the bytes highest first.
pub of_string-to_hex :
    (bytes : List ℕ) → All (λ b. b < 256) bytes → of_string 16 (to_hex bytes) ≡ of_digits 256 bytes
unfolding of_string of_digits
of_string-to_hex bytes h = hex_value 0 bytes h
