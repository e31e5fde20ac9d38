-- ===== src/Base/Strings.antt =====
-- The methods of JavaScript strings that the program uses, on code units. Case is ASCII: a unit
-- above 127 stays as it is.
use open_beanie.Base.Tests.{ltb, leb, ◌==◌, if◌then◌else◌, Text, Bool-cases}
use open_beanie.Base.Lists.{length, replicate, drop, All, All-reverse}
use open_beanie.Base.Positional.{low_digits, of_digits, of_digits-low_digits, low_digits-IsBelow}
use Prim.Native.Nat.{ℕ, zero, suc, ◌+◌, ◌-◌, ◌≤◌, ◌<◌}
use mathlib.Core.Path.{◌≡◌, refl, sym, ap, ap₂, ◌∙◌}
use mathlib.Core.Bool.{Bool, true, false, ◌&&◌, ◌||◌}
use mathlib.Core.Logic.{inl, inr}
use mathlib.Core.List.{List, [], ◌∷◌, ◌++◌, map, reverse, reverse-reverse}
use native.Mathlib.Omega.{arith}

unfoldable pub upper_unit : ℕ → ℕ
upper_unit c = if leb b'a' c && leb c b'z' then c - 32 else c

unfoldable pub lower_unit : ℕ → ℕ
lower_unit c = if leb b'A' c && leb c b'Z' then c + 32 else c

-- `toUpperCase()` and `toLowerCase()`
unfoldable pub to_upper : Text → Text
unfolding upper_unit
to_upper = map upper_unit

unfoldable pub to_lower : Text → Text
unfolding lower_unit
to_lower = map lower_unit

-- White space and line ends, as `trim()` and `\s` take them.
abbrev pub is_space : ℕ → Bool
is_space c =
    (leb 9 c && leb c 13)
    || c == 32
    || c == 160
    || c == 0x1680
    || (leb 0x2000 c && leb c 0x200a)
    || c == 0x2028
    || c == 0x2029
    || c == 0x202f
    || c == 0x205f
    || c == 0x3000
    || c == 0xfeff

unfoldable pub trim_start : Text → Text
trim_start [] = []
trim_start (c ∷ s) = if is_space c then trim_start s else c ∷ s

-- `trim()`
unfoldable pub trim : Text → Text
unfolding trim_start
trim s = reverse (trim_start (reverse (trim_start s)))

-- `padStart(n, c)` and `padEnd(n, c)`
abbrev pub pad_start : ℕ → ℕ → Text → Text
pad_start n c s = replicate (n - length s) c ++ s

abbrev pub pad_end : ℕ → ℕ → Text → Text
pad_end n c s = s ++ replicate (n - length s) c

-- The digit for a value below 16, in lower case.
unfoldable pub digit : ℕ → ℕ
digit d = if ltb d 10 then d + b'0' else d - 10 + b'a'

-- `n.toString(base)` of a natural number: "0" for 0.
unfoldable pub to_string : ℕ → ℕ → Text
unfolding digit low_digits
to_string base zero = b'0' ∷ []
to_string base (suc n) = map digit (reverse (low_digits base (suc n)))

abbrev pub is_digit : ℕ → Bool
is_digit c = leb b'0' c && leb c b'9'

abbrev pub is_hex : ℕ → Bool
is_hex c = is_digit c || (leb b'a' c && leb c b'f') || (leb b'A' c && leb c b'F')

-- The value of a hex digit.
unfoldable pub digit_value : ℕ → ℕ
digit_value c = if is_digit c then c - b'0' else if leb b'a' c then c - b'a' + 10 else c - b'A' + 10

-- `BigInt` of hex digits, or of decimal digits.
unfoldable pub of_string : ℕ → Text → ℕ
unfolding digit_value of_digits
of_string base s = of_digits base (map digit_value s)

pub digit_value-digit : (d : ℕ) → d < 16 → digit_value (digit d) ≡ d
unfolding digit_value digit
digit_value-digit d h = ground arith

pub digit-is_hex : (d : ℕ) → d < 16 → is_hex (digit d) ≡ true
unfolding digit
digit-is_hex d h = ground arith

pub digit-is_digit : (d : ℕ) → d < 10 → is_digit (digit d) ≡ true
unfolding digit
digit-is_digit d h = ground arith

map-digit_value : (ds : List ℕ) → All (λ d. d < 16) ds → map digit_value (map digit ds) ≡ ds
map-digit_value [] h = refl
map-digit_value (d ∷ ds) (h, hs) = ap₂ ◌∷◌ (digit_value-digit d h) (map-digit_value ds hs)

All-weaken : (a b : ℕ) (ds : List ℕ) → a ≤ b → All (λ d. d < a) ds → All (λ d. d < b) ds
All-weaken a b [] h k = tt
All-weaken a b (d ∷ ds) h (k, ks) = (omega arith, All-weaken a b ds h ks)

-- Numbers are read back from their digits, in the bases from 2 to 16.
pub of_string-to_string :
    (base n : ℕ) → 2 ≤ base → base ≤ 16 → of_string base (to_string base n) ≡ n
unfolding of_string to_string
of_string-to_string base zero h k = omega arith
of_string-to_string base (suc n) h k =
    let ds = reverse (low_digits base (suc n)) in
    let small = All-weaken base 16 ds k (low_digits-IsBelow base h (suc n)) in
    rw (map-digit_value ds small) (of_digits-low_digits base h (suc n))

pub to_string-injective :
    (base m n : ℕ) → 2 ≤ base → base ≤ 16 → to_string base m ≡ to_string base n → m ≡ n
to_string-injective base m n h k e =
    sym (of_string-to_string base m h k) ∙ ap (of_string base) e ∙ of_string-to_string base n h k

-- `s.startsWith(t)` and `s.includes(t)`
unfoldable pub starts_with : Text → Text → Bool
starts_with s [] = true
starts_with [] (_ ∷ _) = false
starts_with (c ∷ s) (d ∷ t) = c == d && starts_with s t

unfoldable pub has_part : Text → Text → Bool
unfolding starts_with
has_part [] t = starts_with [] t
has_part (c ∷ s) t = starts_with (c ∷ s) t || has_part s t

abbrev pub Solid : ℕ → Type 0
Solid c = is_space c ≡ false

trim_start-Solid : (s : Text) → All Solid s → trim_start s ≡ s
unfolding trim_start
trim_start-Solid [] h = refl
trim_start-Solid (c ∷ s) (h, _) = rw h

-- Nothing is trimmed off a text without white space.
pub trim-Solid : (s : Text) → All Solid s → trim s ≡ s
unfolding trim
trim-Solid s h =
    rw (trim_start-Solid s h, trim_start-Solid (reverse s) (All-reverse Solid s h))
      (reverse-reverse s)

abbrev pub Hex : ℕ → Type 0
Hex c = is_hex c ≡ true

pub Hex-Solid : (c : ℕ) → Hex c → Solid c
Hex-Solid c h = ground arith

pub lower_unit-Hex : (c : ℕ) → Hex c → Hex (lower_unit c)
unfolding lower_unit
lower_unit-Hex c h = ground arith

pub lower_unit_idem : (c : ℕ) → lower_unit (lower_unit c) ≡ lower_unit c
unfolding lower_unit
lower_unit_idem c = ground arith

pub digit_value-lower_unit : (c : ℕ) → Hex c → digit_value (lower_unit c) ≡ digit_value c
unfolding lower_unit digit_value
digit_value-lower_unit c h = ground arith

pub digit_value-lt : (c : ℕ) → Hex c → digit_value c < 16
unfolding digit_value
digit_value-lt c h = ground arith

pub starts_with-split : (s t : Text) → starts_with s t ≡ true → s ≡ t ++ drop (length t) s
unfolding starts_with
starts_with-split s [] h = refl
starts_with-split [] (d ∷ t) h = cc
starts_with-split (c ∷ s) (d ∷ t) h = elim (Bool-cases (c == d)) [
  | inl e ↦
      let same : c ≡ d = ground arith in rw same (ap (d ∷◌) (starts_with-split s t (rw e at h)))
  | inr e ↦ cc (rw e at h)
]
