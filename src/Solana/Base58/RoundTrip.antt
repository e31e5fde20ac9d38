-- ===== src/Solana/Base58/RoundTrip.antt =====
-- Base58 decoding and encoding are inverse to one another.
use open_beanie.Base.{
  ℕ, zero, suc, ◌+◌, ◌*◌, ◌<◌, ◌≡◌, ◌≢◌, refl, sym, ap, ◌∙◌, Bool, true, false, ◌==◌, if◌then◌else◌,
  List, [], ◌∷◌, ◌++◌, map, reverse, Option, none, some, Text, length, get_or, replicate, All,
  Option-cases, Bool-cases, inl, inr, arith, not, All-append, All-replicate, ◌&&◌, &&-true,
}
use open_beanie.Base.Positional.{
  count_leading, of_digits, low_digits, digits_loop, of_digits-low_digits, low_digits-IsBelow,
  low_digits-of_digits, count_leading-low_digits, of_digits-replicate,
}
use open_beanie.Solana.Base58.{
  IsByte, alphabet, index_of, letter, decode_loop, bytes_of, base58_decode, base58_encode,
}
use mathlib.Core.Path.{ap₂}
use mathlib.Core.List.{foldl}

-- A test on every digit, by evaluation.
every_below : (ℕ → Bool) → ℕ → Bool
every_below p zero = true
every_below p (suc n) = every_below p n && p n

every_below_at : (p : ℕ → Bool) (d n : ℕ) → d < n → every_below p n ≡ true → p d ≡ true
unfolding every_below
every_below_at p d zero lt h = absurd (omega arith)
every_below_at p d (suc n) lt h = elim (Bool-cases (d == n)) [
  | inl e ↦ let same : d ≡ n = ground (arith, e) in rw same (&&-true _ _ h).1
  | inr e ↦ every_below_at p d n (ground (arith, e)) (&&-true _ _ h).0
]

abbrev is_index : ℕ → Option ℕ → Bool
is_index d none = false
is_index d (some i) = i == d

is_index→eq : (d : ℕ) (o : Option ℕ) → is_index d o ≡ true → o ≡ some d
is_index→eq d none h = cc
is_index→eq d (some i) h = ground arith

letters : every_below (λ d. is_index d (index_of (letter d) alphabet)) 58 ≡ true
unfolding every_below index_of letter
letters = refl

index_of-letter : (d : ℕ) → d < 58 → index_of (letter d) alphabet ≡ some d
index_of-letter d h = is_index→eq d _ (every_below_at _ d 58 h letters)

index_of-eq_some :
    (c : ℕ) (xs : Text) (i : ℕ) → index_of c xs ≡ some i → (get_or xs i 0 ≡ c) × (i < length xs)
unfolding index_of
index_of-eq_some c [] i h = cc
index_of-eq_some c (x ∷ xs) i h = elim (Option-cases (index_of c xs)) [
  | inl e ↦ ground (arith, e)
  | inr (j, e) ↦
      let (at, lt) = index_of-eq_some c xs j e in
      elim (Bool-cases (c == x)) [
        | inl t ↦ let z : i ≡ 0 = ground (arith, t) in rw z (ground (arith, t), omega arith)
        | inr t ↦
            let next : some (j + 1) ≡ some i = rw (t, e) at h in
            let z : i ≡ suc j = ground (arith, next) in rw z (at, omega arith)
      ]
]

abbrev AreDigits : List ℕ → Type 0
AreDigits ds = All (λ d. d < 58) ds

abbrev read58 : ℕ → List ℕ → ℕ
read58 = foldl (λ n d. n * 58 + d)

decode_loop-map-letter :
    (n : ℕ) (ds : List ℕ) → AreDigits ds → decode_loop n (map letter ds) ≡ some (read58 n ds)
unfolding decode_loop
decode_loop-map-letter n [] h = refl
decode_loop-map-letter n (d ∷ ds) (h, hs) =
    rw (index_of-letter d h, decode_loop) (decode_loop-map-letter (n * 58 + d) ds hs)

-- What is read consists of letters, and they are read as their indices.
decode_loop-eq_some :
    (n : ℕ) (s : Text) (m : ℕ)
    → decode_loop n s ≡ some m
    → (ds : List ℕ) × AreDigits ds × (map letter ds ≡ s) × (read58 n ds ≡ m)
unfolding decode_loop letter
decode_loop-eq_some n [] m h = ([], tt, refl, ground arith)
decode_loop-eq_some n (c ∷ s) m h = elim (Option-cases (index_of c alphabet)) [
  | inl e ↦ absurd (ground (arith, rw (e, decode_loop) at h))
  | inr (d, e) ↦
      let (ds, below, spelt, value) =
        decode_loop-eq_some (n * 58 + d) s m (rw (e, decode_loop) at h) in
      let (at, lt) = index_of-eq_some c alphabet d e in
      (d ∷ ds, (lt, below), ap₂ ◌∷◌ at spelt, value)
]

-- `1` is the letter of 0, and of no other digit.
digit_one : every_below (λ d. if letter d == b'1' then d == 0 else not (d == 0)) 58 ≡ true
unfolding every_below letter
digit_one = refl

letter-is_one : (d : ℕ) → d < 58 → (letter d == b'1') ≡ (d == 0)
letter-is_one d h = ground (arith, every_below_at _ d 58 h digit_one)

count_leading-map-letter :
    (ds : List ℕ) → AreDigits ds → count_leading b'1' (map letter ds) ≡ count_leading 0 ds
unfolding count_leading
count_leading-map-letter [] h = refl
count_leading-map-letter (d ∷ ds) (h, hs) = rw (letter-is_one d h, count_leading-map-letter ds hs)

map-letter-zeros :
    (z : ℕ) (ds : List ℕ) → replicate z b'1' ++ map letter ds ≡ map letter (replicate z 0 ++ ds)
unfolding letter
map-letter-zeros zero ds = refl
map-letter-zeros (suc z) ds = ap (b'1' ∷◌) (map-letter-zeros z ds)

-- `base58_decode` on letters, with the digits apart.
base58_decode-map-letter :
    (ds : List ℕ)
    → ds ≢ []
    → AreDigits ds
    → base58_decode (map letter ds) ≡ some (bytes_of (count_leading 0 ds) (of_digits 58 ds))
unfolding base58_decode of_digits
base58_decode-map-letter [] ne h = absurd (ne refl)
base58_decode-map-letter (d ∷ ds) ne h =
    rw (count_leading-map-letter (d ∷ ds) h, decode_loop-map-letter 0 (d ∷ ds) h)

-- The base-58 digits that stand for `zeros` zero bytes and the number `n`.
abbrev digits_of : ℕ → ℕ → List ℕ
digits_of zeros n = replicate zeros 0 ++ reverse (low_digits 58 n)

digits_of-AreDigits : (zeros n : ℕ) → AreDigits (digits_of zeros n)
digits_of-AreDigits zeros n =
    All-append (λ d. d < 58) (replicate zeros 0) _ (All-replicate _ zeros 0 (omega arith))
      (low_digits-IsBelow 58 (omega arith) n)

of_digits-digits_of : (zeros n : ℕ) → of_digits 58 (digits_of zeros n) ≡ n
of_digits-digits_of zeros n =
    of_digits-replicate 58 (omega arith) zeros _ ∙ of_digits-low_digits 58 (omega arith) n

encoding_lem :
    (bytes : List ℕ)
    → base58_encode bytes ≡ map letter (digits_of (count_leading 0 bytes) (of_digits 256 bytes))
unfolding base58_encode
encoding_lem bytes = map-letter-zeros (count_leading 0 bytes) _

bytes_of-parts :
    (bytes : List ℕ)
    → All IsByte bytes
    → bytes_of (count_leading 0 bytes) (of_digits 256 bytes) ≡ bytes
unfolding bytes_of
bytes_of-parts bytes h = low_digits-of_digits 256 (omega arith) bytes h

bytes_of-zero : bytes_of 0 0 ≡ []
unfolding bytes_of low_digits digits_loop
bytes_of-zero = refl

bytes-nil_of_digits :
    (bytes : List ℕ)
    → All IsByte bytes
    → digits_of (count_leading 0 bytes) (of_digits 256 bytes) ≡ []
    → bytes ≡ []
unfolding count_leading of_digits
bytes-nil_of_digits bytes h e =
    let z = count_leading 0 bytes in
    let n = of_digits 256 bytes in
    let no_zeros : z ≡ 0 = sym (rw e at (count_leading-low_digits 58 (omega arith) z n)) in
    let nothing : n ≡ 0 = sym (rw e at (of_digits-digits_of z n)) in
    sym (bytes_of-parts bytes h) ∙ ap₂ bytes_of no_zeros nothing ∙ bytes_of-zero

-- Decoding gives back every non-empty sequence of bytes from its base58 encoding.
pub base58_decode-base58_encode :
    (bytes : List ℕ)
    → bytes ≢ []
    → All IsByte bytes
    → base58_decode (base58_encode bytes) ≡ some bytes
base58_decode-base58_encode bytes ne h =
    let z = count_leading 0 bytes in
    let n = of_digits 256 bytes in
    let zeros = count_leading-low_digits 58 (omega arith) z n in
    let value = of_digits-digits_of z n in
    rw (encoding_lem bytes) (
      base58_decode-map-letter (digits_of z n) (λ e. ne (bytes-nil_of_digits bytes h e))
        (digits_of-AreDigits z n)
      ∙ ap some (rw (zeros, value) (bytes_of-parts bytes h)))

-- What decodes is a text of letters, and decodes to the bytes that its digits stand for.
base58_decode-eq_some :
    (s : Text) (bytes : List ℕ)
    → base58_decode s ≡ some bytes
    → (ds : List ℕ) × AreDigits ds
      × (map letter ds ≡ s)
      × (bytes ≡ bytes_of (count_leading 0 ds) (of_digits 58 ds))
unfolding base58_decode of_digits
base58_decode-eq_some [] bytes h = cc
base58_decode-eq_some (c ∷ s) bytes h = elim (Option-cases (decode_loop 0 (c ∷ s))) [
  | inl e ↦ cc (rw e at h)
  | inr (m, e) ↦
      let (ds, below, spelt, value) = decode_loop-eq_some 0 (c ∷ s) m e in
      let zeros : count_leading b'1' (c ∷ s) ≡ count_leading 0 ds =
        ap (count_leading b'1') (sym spelt) ∙ count_leading-map-letter ds below in
      let got : bytes ≡ bytes_of (count_leading b'1' (c ∷ s)) m = cc (rw e at h) in
      (ds, below, spelt, got ∙ ap₂ bytes_of zeros (sym value))
]

base58_encode-bytes_of : (z n : ℕ) → base58_encode (bytes_of z n) ≡ map letter (digits_of z n)
unfolding bytes_of
base58_encode-bytes_of z n =
    let value =
      of_digits-replicate 256 (omega arith) z _ ∙ of_digits-low_digits 256 (omega arith) n in
    encoding_lem (bytes_of z n)
    ∙ ap (map letter) (ap₂ digits_of (count_leading-low_digits 256 (omega arith) z n) value)

-- A text that decodes to bytes is the encoding of those bytes.
pub base58_encode-base58_decode :
    (s : Text) (bytes : List ℕ) → base58_decode s ≡ some bytes → base58_encode bytes ≡ s
base58_encode-base58_decode s bytes h =
    let (ds, below, spelt, e) = base58_decode-eq_some s bytes h in
    rw e (
      base58_encode-bytes_of (count_leading 0 ds) (of_digits 58 ds)
      ∙ ap (map letter) (low_digits-of_digits 58 (omega arith) ds below)
      ∙ spelt)
