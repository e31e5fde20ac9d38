-- ===== src/Base/Utf8.antt =====
-- `new TextEncoder().encode(s)`: UTF-8 from UTF-16 code units.
use open_beanie.Base.Tests.{ltb, leb, if◌then◌else◌, Text}
use Prim.Native.Nat.{ℕ, ◌+◌, ◌-◌, ◌*◌, ◌/◌, ◌%◌}
use mathlib.Core.Bool.{Bool, ◌&&◌}
use mathlib.Core.List.{List, [], ◌∷◌, ◌++◌}

abbrev is_high : ℕ → Bool
is_high c = leb 0xd800 c && leb c 0xdbff

abbrev is_low : ℕ → Bool
is_low c = leb 0xdc00 c && leb c 0xdfff

-- A surrogate that stands alone is replaced.
abbrev unit_bytes : ℕ → List ℕ
unit_bytes c =
    if ltb c 0x80
    then c ∷ []
    else if ltb c 0x800
    then (0xc0 + c / 64) ∷ (0x80 + c % 64) ∷ []
    else if is_high c
    then 0xef ∷ 0xbf ∷ 0xbd ∷ []
    else if is_low c
    then 0xef ∷ 0xbf ∷ 0xbd ∷ []
    else (0xe0 + c / 4096) ∷ (0x80 + c / 64 % 64) ∷ (0x80 + c % 64) ∷ []

-- Two surrogates give one code point.
abbrev pair_bytes : ℕ → ℕ → List ℕ
pair_bytes high low =
    let p = 0x10000 + (high - 0xd800) * 1024 + (low - 0xdc00) in
    (0xf0 + p / 262144) ∷ (0x80 + p / 4096 % 64) ∷ (0x80 + p / 64 % 64) ∷ (0x80 + p % 64) ∷ []

unfoldable pub utf8 : Text → List ℕ
utf8 [] = []
utf8 (c ∷ []) = unit_bytes c
utf8 (c ∷ d ∷ s) =
    let single = unit_bytes c ++ utf8 (d ∷ s) in
    let pair = pair_bytes c d ++ utf8 s in if is_high c && is_low d then pair else single
