-- ===== src/Solana/Wire/RoundTrip.antt =====
-- Reading back what is written on the wire.
use open_beanie.Base.{
  ℕ, zero, suc, ◌+◌, ◌*◌, ◌/◌, ◌%◌, ◌^◌, ◌≤◌, ◌<◌, ◌≡◌, refl, ◌∙◌, ap, ltb, List, [], ◌∷◌, ◌++◌,
  Option, none, some, length, drop, replicate, concat, All, arith, length-append, drop-append,
  take-append, drop-append_add, Bool-cases, inl, inr, ◌⊎◌, length-replicate, All-replicate,
  concat-replicate, leb,
}
use open_beanie.Base.Bits.{bit_or_disjoint}
use open_beanie.Base.Positional.{low_value}
use open_beanie.Base.Result.{ℤ, pos, negsuc}
use open_beanie.Solana.Wire.{
  shortvec_loop, shortvec, le_bytes, u64_le, unsigned_transaction, Transaction, or_group,
  read_length, read_signatures, split_at, parse_transaction,
}
use native.Mathlib.Nat.{pow-le-pow_right, mod-eq_of_lt, div-add-mod, pow-suc}
use mathlib.Core.Path.{ap₂}
use mathlib.Core.List.{append_assoc}
use native.Mathlib.Numerals.{towards_suc}

or_group-sum :
    (n x b shift : ℕ)
    → n < 2 ^ shift
    → shift ≤ 21
    → b % 128 ≡ x
    → or_group n b shift ≡ n + x * 2 ^ shift
unfolding or_group
or_group-sum n x b shift h s e =
    let small : x * 2 ^ shift < 2 ^ 32 =
      grind (arith, pow-le-pow_right {n = 2} (omega arith) {i = shift} {j = 21} s) in
    let count : shift % 32 ≡ shift = omega arith in
    rw (count, e, mod-eq_of_lt small) (bit_or_disjoint shift n x h)

-- What one more group leaves below the next shift.
group_below : (n x shift : ℕ) → n < 2 ^ shift → x < 128 → n + x * 2 ^ shift < 2 ^ (shift + 7)
group_below n x shift h k = simp towards_suc (grind arith)

shift_seven : (v s : ℕ) → v / 128 * 2 ^ (s + 7) + v % 128 * 2 ^ s ≡ v * 2 ^ s
shift_seven v s =
    let pow_seven : 2 ^ (s + 7) ≡ 128 * 2 ^ s = simp towards_suc (omega arith) in
    omega
      (arith, ap (λ (t : ℕ). v / 128 * t) pow_seven, ap (λ (t : ℕ). t * 2 ^ s) (div-add-mod v 128))

shortvec_loop-last : (fuel v : ℕ) → v < 128 → shortvec_loop (suc fuel) v ≡ v ∷ []
unfolding shortvec_loop
shortvec_loop-last fuel v h = ground arith

shortvec_loop-more :
    (fuel v : ℕ)
    → 128 ≤ v
    → shortvec_loop (suc fuel) v ≡ (v % 128 + 128) ∷ shortvec_loop fuel (v / 128)
unfolding shortvec_loop
shortvec_loop-more fuel v h = ground arith

read_length-last :
    (b n shift i : ℕ) (bytes : List ℕ)
    → b < 128
    → read_length (b ∷ bytes) n shift i ≡ some (or_group n b shift, i + 1)
unfolding read_length
read_length-last b n shift i bytes h = ground arith

read_length-more :
    (x n shift i : ℕ) (bytes : List ℕ)
    → x < 128
    → read_length ((x + 128) ∷ bytes) n shift i
      ≡ read_length bytes (or_group n (x + 128) shift) (shift + 7) (i + 1)
unfolding read_length
read_length-more x n shift i bytes h = ground arith

abbrev found : ℕ → ℕ → Option (ℕ × ℕ)
found n i = some (n, i)

-- `k` more groups can follow; `n` is what has been read, below the next group.
read_length-shortvec :
    (k fuel v n shift i : ℕ) (rest : List ℕ)
    → v < 128 ^ suc k
    → v < fuel
    → n < 2 ^ shift
    → shift + 7 * k ≤ 21
    → read_length (shortvec_loop fuel v ++ rest) n shift i
      ≡ some (n + v * 2 ^ shift, i + length (shortvec_loop fuel v))
read_length-shortvec k zero v n shift i rest a b c d = absurd (omega arith)
read_length-shortvec zero (suc fuel) v n shift i rest a b c d = rw (
  shortvec_loop-last fuel v (omega arith),
  read_length-last v n shift i rest (omega arith),
  or_group-sum n v v shift c (omega arith) (omega arith),
)
read_length-shortvec (suc k) (suc fuel) v n shift i rest a b c d = elim (Bool-cases (ltb v 128)) [
  | inl e ↦ rw (
    shortvec_loop-last fuel v (ground arith),
    read_length-last v n shift i rest (ground arith),
    or_group-sum n v v shift c (omega arith) (ground arith),
  )
  | inr e ↦
      let x = v % 128 in
      let small : x < 128 = omega arith in
      let sum = or_group-sum n x (x + 128) shift c (omega arith) (omega arith) in
      let ih =
        read_length-shortvec k fuel (v / 128) (n + x * 2 ^ shift) (shift + 7) (i + 1) rest
          (omega (arith, pow-suc 128 (suc k))) (ground arith) (group_below n x shift c small)
          (omega arith) in
      rw
        (
          shortvec_loop-more fuel v (ground arith),
          read_length-more x n shift i (shortvec_loop fuel (v / 128) ++ rest) small,
          sum,
          ih,
        )
        (ap₂ found (omega (arith, shift_seven v shift)) (omega arith))
]

-- The number of signatures is read back, with the index of what follows.
read_length-eq :
    (v : ℕ) (rest : List ℕ)
    → v < 128 ^ 4
    → read_length (shortvec v ++ rest) 0 0 0 ≡ some (v, length (shortvec v))
unfolding shortvec
read_length-eq v rest h =
    read_length-shortvec 3 (v + 1) v 0 0 0 rest h (omega arith) (omega arith) (omega arith)
    ∙ ap₂ found (omega arith) (omega arith)

read_signatures-eq :
    (sigs : List (List ℕ)) (front message : List ℕ) (k i : ℕ)
    → All (λ s. length s ≡ 64) sigs
    → length front ≡ i + k * 64
    → read_signatures (length sigs) k i (front ++ (concat sigs ++ message)) ≡ sigs
unfolding read_signatures
read_signatures-eq [] front message k i h e = refl
read_signatures-eq (s ∷ sigs) front message k i (h, hs) e =
    let rest = concat sigs ++ message in
    let regroup : front ++ ((s ++ concat sigs) ++ message) ≡ (front ++ s) ++ rest =
      simp append_assoc in
    let skip : drop (i + k * 64) (front ++ (s ++ rest)) ≡ s ++ rest =
      drop-append front (s ++ rest) (i + k * 64) e in
    ap₂ ◌∷◌ (rw (append_assoc s (concat sigs) message, skip) (take-append s rest 64 h)) (
      rw regroup (
        read_signatures-eq sigs (front ++ s) message (k + 1) i hs
          (omega (arith, length-append front s))))

pub length-concat :
    (w : ℕ) (xss : List (List ℕ))
    → All (λ xs. length xs ≡ w) xss
    → length (concat xss) ≡ length xss * w
length-concat w [] h = omega arith
length-concat w (xs ∷ xss) (h, hs) =
    omega (arith, length-append xs (concat xss), length-concat w xss hs)

-- Enough bytes for the signatures that are counted.
split_at-eq :
    (n i : ℕ) (bytes : List ℕ)
    → n < 2 ^ 31
    → i + n * 64 ≤ length bytes
    → split_at n i bytes
      ≡ some
          (record { signatures = read_signatures n 0 i bytes; message = drop (i + n * 64) bytes })
unfolding split_at
split_at-eq n i bytes h k = ground arith

abbrev transaction : List (List ℕ) → List ℕ → Option Transaction
transaction sigs message = some (record { signatures = sigs; message = message })

-- Fewer than 2^28 signatures of 64 bytes each and any message are read back from their wire
-- format.
pub parse_transaction-wire :
    (sigs : List (List ℕ)) (message : List ℕ)
    → All (λ s. length s ≡ 64) sigs
    → length sigs < 2 ^ 28
    → parse_transaction (shortvec (length sigs) ++ (concat sigs ++ message))
      ≡ some (record { signatures = sigs; message = message })
unfolding parse_transaction
parse_transaction-wire sigs message h lt =
    let front = shortvec (length sigs) in
    let rest = concat sigs ++ message in
    let size = length-concat 64 sigs h in
    let fits : length front + length sigs * 64 ≤ length (front ++ rest) =
      omega (arith, length-append front rest, length-append (concat sigs) message) in
    let skip : drop (length front + length sigs * 64) (front ++ rest) ≡ message =
      drop-append_add front rest _ (length sigs * 64) (omega arith)
      ∙ drop-append (concat sigs) message _ size in
    rw (parse_transaction, read_length-eq (length sigs) rest lt)
      (split_at-eq (length sigs) (length front) (front ++ rest) (omega arith) fits
        ∙ ap₂ transaction (read_signatures-eq sigs front message 0 (length front) h (omega arith))
            skip)

-- An unsigned transaction for fewer than 2^28 signers reads back as that many signatures of 64
-- zero bytes and the message.
parse_transaction-unsigned_transaction :
    (message : List ℕ) (signers : ℕ)
    → signers < 2 ^ 28
    → parse_transaction (unsigned_transaction message signers)
      ≡ some (record { signatures = replicate signers (replicate 64 0); message = message })
unfolding unsigned_transaction
parse_transaction-unsigned_transaction message signers h =
    let empty = replicate 64 0 in
    let sigs = replicate signers empty in
    let count : length sigs ≡ signers = length-replicate signers empty in
    let sixty_four : All (λ s. length s ≡ 64) sigs =
      All-replicate (λ (s : List ℕ). length s ≡ 64) signers empty refl in
    rw (← concat-replicate {A = ℕ} 64 signers (64 * signers) 0 refl)
      (rw count at (parse_transaction-wire sigs message sixty_four (rw count h)))

low_value-le_bytes : (n v : ℕ) → v < 256 ^ n → low_value 256 (le_bytes n v) ≡ v
unfolding le_bytes
low_value-le_bytes zero v h = omega arith
low_value-le_bytes (suc n) v h =
    omega (arith, pow-suc 256 n, low_value-le_bytes n (v / 256) (omega (arith, pow-suc 256 n)))

pub length-le_bytes : (n v : ℕ) → length (le_bytes n v) ≡ n
unfolding le_bytes
length-le_bytes zero v = refl
length-le_bytes (suc n) v = ap suc (length-le_bytes n (v / 256))

-- A value below 2^64 that is not negative is written as eight bytes that stand for it, lowest
-- first; for every other value nothing is written.
u64_le_cases :
    (v : ℤ)
    → ((n : ℕ) × (bytes : List ℕ) × (v ≡ pos n)
        × (n < 2 ^ 64)
        × (u64_le v ≡ some bytes)
        × (length bytes ≡ 8)
        × (low_value 256 bytes ≡ n))
      ⊎ ((u64_le v ≡ none) × ((n : ℕ) → v ≡ pos n → 2 ^ 64 ≤ n))
unfolding u64_le
u64_le_cases (negsuc n) = inr (refl, λ m e. cc)
u64_le_cases (pos n) = elim (Bool-cases (leb (2 ^ 64) n)) [
  | inl e ↦ inr (rw e, λ m q. ground arith)
  | inr e ↦ inl (
    n,
    le_bytes 8 n,
    refl,
    ground arith,
    rw e,
    length-le_bytes 8 n,
    low_value-le_bytes 8 n (ground arith),
  )
]

pub u64_le-eq_some :
    (v : ℤ) (bytes : List ℕ)
    → u64_le v ≡ some bytes
    → (v ≡ pos (low_value 256 bytes)) × (low_value 256 bytes < 2 ^ 64) × (length bytes ≡ 8)
u64_le-eq_some v bytes h = elim (u64_le_cases v) [
  | inl (n, bs, e, small, written, width, value) ↦
      let same : bs ≡ bytes = cc in rw (← same) (rw value (e, small, width))
  | inr (e, _) ↦ cc
]
