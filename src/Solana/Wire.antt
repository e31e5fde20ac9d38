-- ===== src/Solana/Wire.antt =====
-- solana.js, the wire format of transactions: `shortvec`, `u64le`, `unsignedTransaction` and
-- `parseTransaction`.
pub mod RoundTrip
use open_beanie.Base.{
  ℕ, zero, suc, ◌+◌, ◌-◌, ◌*◌, ◌/◌, ◌%◌, ◌^◌, bit_or, ◌≡◌, refl, Bool, ◌==◌, ltb, leb,
  if◌then◌else◌, List, [], ◌∷◌, ◌++◌, Option, none, some, length, take, drop, replicate,
}
use open_beanie.Base.Bits.{low_bits, shl, shr}
use open_beanie.Base.Result.{ℤ, pos, negsuc}

-- For the lengths that are encoded, below 2 ^ 31, `>>` is a division. `b` has seven bits, so
-- `b | 0x80` is a sum. Each round but the last takes bits away, so `n + 1` rounds are enough.
unfoldable pub shortvec_loop : ℕ → ℕ → List ℕ
shortvec_loop zero n = []
shortvec_loop (suc fuel) n =
    let b = low_bits n 7 in
    let rest = (b + 128) ∷ shortvec_loop fuel (shr n 7) in if shr n 7 == 0 then b ∷ [] else rest

unfoldable pub shortvec : ℕ → List ℕ
unfolding shortvec_loop
shortvec n = shortvec_loop (n + 1) n

-- `out[i] = v & 0xff; v >>= 8`, for the bytes that are left.
unfoldable pub le_bytes : ℕ → ℕ → List ℕ
le_bytes zero v = []
le_bytes (suc n) v = low_bits v 8 ∷ le_bytes n (shr v 8)

-- `none` is the thrown "Amount out of range."
unfoldable pub u64_le : ℤ → Option (List ℕ)
unfolding le_bytes
u64_le (pos v) = if leb (2 ^ 64) v then none else some (le_bytes 8 v)
u64_le (negsuc v) = none

unfoldable pub unsigned_transaction : List ℕ → ℕ → List ℕ
unsigned_transaction message signers = shortvec signers ++ (replicate (64 * signers) 0 ++ message)

pub record Transaction : Type 0 where
  pub signatures : List (List ℕ)
  pub message : List ℕ

-- `n | ((b & 0x7f) << shift)` on 32-bit patterns; `<<` takes its count modulo 32.
unfoldable pub or_group : ℕ → ℕ → ℕ → ℕ
or_group n b shift = bit_or n (shl (low_bits b 7) (shift % 32) % 2 ^ 32)

-- The first loop: the bit pattern of `n` and the index behind it. `none` is the thrown
-- "Malformed transaction."; the list is what `bytes[i++]` has not reached.
unfoldable pub read_length : List ℕ → ℕ → ℕ → ℕ → Option (ℕ × ℕ)
read_length [] n shift i = none
read_length (b ∷ bytes) n shift i =
    let n' = or_group n b shift in
    let more = read_length bytes n' (shift + 7) (i + 1) in
    if shr b 7 % 2 == 0 then some (n', i + 1) else more

-- `for (let k = 0; k < n; k++)`, for the signatures that are left from the `k`-th on.
unfoldable pub read_signatures : ℕ → ℕ → ℕ → List ℕ → List (List ℕ)
read_signatures zero k i bytes = []
read_signatures (suc n) k i bytes =
    take 64 (drop (i + k * 64) bytes) ∷ read_signatures n (k + 1) i bytes

-- `bytes.slice(i - m)`: a negative start counts from the end, and stops at the front.
abbrev slice_back : ℕ → ℕ → List ℕ → List ℕ
slice_back i m bytes = drop (if leb m i then i - m else length bytes - (m - i)) bytes

-- `|` makes `n` a signed 32-bit number: a pattern from 2 ^ 31 on stands for `n - 2 ^ 32`. Then no
-- signature is read, and the test on the length passes.
unfoldable pub split_at : ℕ → ℕ → List ℕ → Option Transaction
unfolding read_signatures
split_at n i bytes =
    if ltb n (2 ^ 31)
    then if ltb (length bytes) (i + n * 64)
      then none
      else some
          (record { signatures = read_signatures n 0 i bytes; message = drop (i + n * 64) bytes })
    else some (record { signatures = []; message = slice_back i ((2 ^ 32 - n) * 64) bytes })

unfoldable pub parse_transaction : List ℕ → Option Transaction
unfolding read_length or_group split_at
parse_transaction bytes = elim (read_length bytes 0 0 0) [
  | none ↦ none
  | some (n, i) ↦ split_at n i bytes
]
