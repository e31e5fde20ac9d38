-- ===== src/Solana/Curve.antt =====
-- solana.js, `modPow` and `isOnCurve`: whether 32 bytes are the encoding of a point of ed25519.
pub mod Power
use open_beanie.Base.{
  ℕ, zero, suc, ◌+◌, ◌-◌, ◌*◌, ◌/◌, ◌%◌, ◌^◌, Bool, true, ◌==◌, if◌then◌else◌, List,
}
use open_beanie.Base.Bits.{shl, low_bits}
use open_beanie.Base.Positional.{low_value}

abbrev pub p25519 : ℕ
p25519 = 2 ^ 255 - 19

-- The loop of `modPow`; it halves `e`, so `e` rounds are enough.
unfoldable pub mod_pow_loop : ℕ → ℕ → ℕ → ℕ → ℕ
mod_pow_loop zero result b e = result
mod_pow_loop (suc fuel) result b e =
    let result' = if e % 2 == 1 then result * b % p25519 else result in
    let rest = mod_pow_loop fuel result' (b * b % p25519) (e / 2) in if e == 0 then result else rest

unfoldable pub mod_pow : ℕ → ℕ → ℕ
unfolding mod_pow_loop
mod_pow base e = mod_pow_loop e 1 (base % p25519) e

-- `-121665n * …` is negative, and `mod` brings it into range.
unfoldable pub edwards_d : ℕ
unfolding mod_pow
edwards_d = (p25519 - 121665 * mod_pow 121666 (p25519 - 2) % p25519) % p25519

-- The loop reads `y` from the highest byte, the last, down; `y2 - 1n` may be -1.
unfoldable pub is_on_curve : List ℕ → Bool
unfolding mod_pow edwards_d
is_on_curve bytes =
    let y = low_bits (low_value 256 bytes) 255 % p25519 in
    let y2 = y * y % p25519 in
    let u = (y2 + p25519 - 1) % p25519 in
    let v = (edwards_d * y2 + 1) % p25519 in
    let x2 = u * mod_pow v (p25519 - 2) % p25519 in
    if x2 == 0 then true else mod_pow x2 ((p25519 - 1) / 2) == 1
