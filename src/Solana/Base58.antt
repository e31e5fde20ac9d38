-- ===== src/Solana/Base58.antt =====
-- solana.js, base58 and `pubkeyBytes`.
pub mod RoundTrip
use open_beanie.Base.{
  ℕ, ◌+◌, ◌*◌, ◌<◌, ◌≡◌, refl, Bool, ◌==◌, if◌then◌else◌, List, [], ◌∷◌, ◌++◌, map, reverse, Option,
  none, some, Text, codes, length, get_or, replicate, All,
}
use open_beanie.Base.Positional.{count_leading, of_digits, low_digits}
use mathlib.Core.Option

abbrev pub IsByte : ℕ → Type 0
IsByte b = b < 256

abbrev pub alphabet : Text
alphabet = codes "123456789ABCDEFGHJKLMNPQRSTUVWXYZabcdefghijkmnopqrstuvwxyz"

-- `INDEX.get(ch)`
unfoldable pub index_of : ℕ → Text → Option ℕ
index_of c [] = none
index_of c (x ∷ xs) = if c == x then some 0 else Option.map (λ i. i + 1) (index_of c xs)

-- `ALPHABET[i]`; an index past the end gives `undefined`, which no digit is.
unfoldable pub letter : ℕ → ℕ
letter i = get_or alphabet i 0

-- The loop over the characters, from the number read so far.
unfoldable pub decode_loop : ℕ → Text → Option ℕ
decode_loop n [] = some n
decode_loop n (c ∷ s) = elim (index_of c alphabet) [
  | none ↦ none
  | some v ↦ decode_loop (n * 58 + v) s
]

-- The digits of `n` in base 256 come lowest first, and are reversed behind the zeros.
unfoldable pub bytes_of : ℕ → ℕ → List ℕ
unfolding low_digits
bytes_of zeros n = replicate zeros 0 ++ reverse (low_digits 256 n)

-- `null` is `none`.
unfoldable pub base58_decode : Text → Option (List ℕ)
unfolding decode_loop bytes_of index_of
base58_decode [] = none
base58_decode (c ∷ s) = Option.map (bytes_of (count_leading b'1' (c ∷ s))) (decode_loop 0 (c ∷ s))

-- Every element of a `Uint8Array` is below 256, so `(n << 8n) | BigInt(b)` is `n * 256 + b`. Each
-- round puts its letter in front of `out`, so the letters stand in reverse to the digits.
unfoldable pub base58_encode : List ℕ → Text
unfolding letter low_digits of_digits
base58_encode bytes =
    replicate (count_leading 0 bytes) b'1'
    ++ map letter (reverse (low_digits 58 (of_digits 256 bytes)))

-- `none` is the thrown error.
unfoldable pub pubkey_bytes : Text → Option (List ℕ)
pubkey_bytes address = elim (base58_decode address) [
  | none ↦ none
  | some b ↦ if length b == 32 then some b else none
]
