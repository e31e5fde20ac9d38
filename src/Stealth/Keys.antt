-- ===== src/Stealth/Keys.antt =====
-- The keys of private lanes as numbers, and the ids of lanes.
use open_beanie.Base.{
  ℕ, ◌+◌, ◌-◌, ◌%◌, ◌≤◌, ◌<◌, ◌≡◌, ap, ◌∙◌, List, [], ◌∷◌, ◌++◌, map, Text, length, drop, replicate,
  All, arith, map-replicate,
}
use mathlib.Core.List.{map-append}
use native.Mathlib.Nat.{mod-lt}
use open_beanie.Base.Positional.{of_digits, of_digits-replicate}
use open_beanie.Base.Strings.{to_string, of_string, digit_value, of_string-to_string}
use open_beanie.Base.Utf8.{utf8}
use open_beanie.Identity.{to_hex}
use open_beanie.Identity.Hex.{length-to_hex, of_string-to_hex}
use open_beanie.Stealth.{bytes_to_scalar, hex64, generate_lane_id}

-- A number that is padded to 64 digits reads back.
pub of_string-hex64 : (n : ℕ) → of_string 16 (drop 2 (hex64 n)) ≡ n
unfolding of_string
of_string-hex64 n =
    let k = 64 - length (to_string 16 n) in
    rw
      (map-append digit_value (replicate k b'0') (to_string 16 n), map-replicate digit_value k b'0')
      (of_digits-replicate 16 (omega arith) k (map digit_value (to_string 16 n))
        ∙ of_string-to_string 16 n (omega arith) (omega arith))

positive : (order : ℕ) → 2 ≤ order → 0 < order - 1
positive order h = omega arith

-- For bytes below 256 and an order of at least 2, the scalar is at least 1 and below the order,
-- and its hex form stands for the number of the bytes modulo the order less 1, plus 1.
pub hex64-bytes_to_scalar :
    (bytes : List ℕ) (order : ℕ)
    → All (λ b. b < 256) bytes
    → 2 ≤ order
    → (of_string 16 (drop 2 (hex64 (bytes_to_scalar bytes order)))
        ≡ of_digits 256 bytes % (order - 1) + 1)
      × (1 ≤ bytes_to_scalar bytes order)
      × (bytes_to_scalar bytes order < order)
unfolding bytes_to_scalar
hex64-bytes_to_scalar bytes order small big =
    let value = of_string-to_hex bytes small in
    (
      of_string-hex64 _ ∙ ap (λ n. n % (order - 1) + 1) value,
      omega arith,
      omega (arith, mod-lt (of_string 16 (to_hex bytes)) (positive order big)),
    )

-- With a hash of 32 bytes, a lane id has 69 characters.
length-generate_lane_id :
    (sha256 : List ℕ → List ℕ) (seed : Text) (rand : List ℕ) (now : ℕ)
    → ((bytes : List ℕ) → (length (sha256 bytes) ≡ 32) × All (λ b. b < 256) (sha256 bytes))
    → length (generate_lane_id sha256 seed rand now) ≡ 69
unfolding generate_lane_id
length-generate_lane_id sha256 seed rand now h =
    let input = utf8 seed ++ ((0 ∷ []) ++ (rand ++ utf8 (to_string 10 now))) in
    let (n, small) = h input in omega (arith, length-to_hex (sha256 input) small)
