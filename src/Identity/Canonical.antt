-- ===== src/Identity/Canonical.antt =====
-- Canonical addresses: what they look like, that they are their own canonical form, and that EVM
-- addresses and felts exclude one another.
use open_beanie.Base.{
  ℕ, suc, ◌-◌, ◌≤◌, ◌<◌, ◌^◌, ◌≡◌, refl, sym, ap, ◌∙◌, true, [], ◌∷◌, ◌++◌, map, none, some, Text,
  length, all, All, drop, arith, Bool-cases, inl, inr, replicate, all→All, All→all, All-map,
  All-imp, All-append, All-replicate, map_idem, length-map, map-replicate, length-append,
  length-replicate,
}
use open_beanie.Base.Positional.{of_digits-replicate, of_digits-lt}
use open_beanie.Base.Strings.{
  trim, trim-Solid, to_lower, of_string, pad_start, is_hex, Hex, Solid, Hex-Solid, lower_unit,
  lower_unit-Hex, lower_unit_idem, digit_value, digit_value-lower_unit, digit_value-lt,
}
use open_beanie.Identity.{
  with_0x, is_evm_form, canonical_evm, felt_of_hex, canonical_felt, evm_limit, stark_prime,
}
use open_beanie.Solana.Program.{strip_0x}
use mathlib.Core.List.{map-append}
use mathlib.Core.Path.{ap₂}

-- The digits of an EVM address in any case.
record EvmForm (value : Text) (digits : Text) : Type 0 where
  trimmed : trim value ≡ with_0x digits
  forty : length digits ≡ 40
  hex : All Hex digits

is_evm_form-digits :
    (t : Text)
    → is_evm_form t ≡ true
    → (digits : Text) × (t ≡ with_0x digits) × (length digits ≡ 40) × (all is_hex digits ≡ true)
is_evm_form-digits [] h = cc
is_evm_form-digits (a ∷ []) h = cc
is_evm_form-digits (a ∷ b ∷ t) h = (t, ground arith, ground arith, ground arith)

canonical_evm-eq_some :
    (value c : Text)
    → canonical_evm value ≡ some c
    → (digits : Text) × EvmForm value digits × (c ≡ with_0x (to_lower digits))
unfolding canonical_evm
canonical_evm-eq_some value c h = elim (Bool-cases (is_evm_form (trim value))) [
  | inl e ↦
      let (digits, t, n, x) = is_evm_form-digits (trim value) e in
      let got : some (to_lower (trim value)) ≡ some c = rw e at h in
      let low : to_lower (with_0x digits) ≡ with_0x (to_lower digits) = unfold to_lower in refl in
      (digits, record { trimmed = t; forty = n; hex = all→All is_hex digits x }, cc (ap to_lower t))
  | inr e ↦ cc (rw e at h)
]

lower-Hex : (t : Text) → All Hex t → All Hex (to_lower t)
unfolding to_lower
lower-Hex t h = All-map lower_unit Hex Hex lower_unit-Hex t h

Hex-All-Solid : (t : Text) → All Hex t → All Solid (with_0x t)
Hex-All-Solid t h = (refl, (refl, All-imp Hex Solid Hex-Solid t h))

length-to_lower : (t : Text) → length (to_lower t) ≡ length t
unfolding to_lower
length-to_lower t = length-map lower_unit t

to_lower_idem : (t : Text) → to_lower (to_lower t) ≡ to_lower t
unfolding to_lower
to_lower_idem t = map_idem lower_unit lower_unit_idem t

canonical_evm-digits :
    (t : Text) → length t ≡ 40 → All Hex t → canonical_evm (with_0x t) ≡ some (with_0x (to_lower t))
unfolding canonical_evm
canonical_evm-digits t n h =
    rw (trim-Solid (with_0x t) (Hex-All-Solid t h), n, All→all is_hex t h) (unfold to_lower in refl)

-- A canonical EVM address is its own canonical form, and has 42 characters.
pub canonical_evm-stable :
    (value c : Text) → canonical_evm value ≡ some c → (canonical_evm c ≡ some c) × (length c ≡ 42)
canonical_evm-stable value c h =
    let (digits, form, e) = canonical_evm-eq_some value c h in
    let low = lower-Hex digits form.hex in
    let n = length-to_lower digits ∙ form.forty in
    rw e (canonical_evm-digits (to_lower digits) n low ∙ rw to_lower_idem, omega arith)

values-lt : (t : Text) → All Hex t → All (λ d. d < 16) (map digit_value t)
values-lt t h = All-map digit_value Hex (λ d. d < 16) digit_value-lt t h

of_string-lt : (t : Text) → All Hex t → of_string 16 t < 16 ^ length t
unfolding of_string
of_string-lt t h =
    rw length-map at (of_digits-lt 16 (omega arith) (map digit_value t) (values-lt t h))

-- A text that is accepted as an EVM address is not accepted as a Starknet address.
pub canonical_evm-not_felt :
    (value c : Text) → canonical_evm value ≡ some c → canonical_felt value ≡ none
canonical_evm-not_felt value c h =
    let (digits, form, e) = canonical_evm-eq_some value c h in
    let small : of_string 16 digits < 2 ^ 160 = rw form.forty at (of_string-lt digits form.hex) in
    unfold canonical_felt strip_0x in rw form.trimmed (ground (arith, small))

-- The digits of a felt that is accepted.
record FeltForm (value : Text) (hex : Text) : Type 0 where
  stripped : strip_0x (trim value) ≡ hex
  some_digits : 1 ≤ length hex
  fits : length hex ≤ 64
  all_hex : All Hex hex
  large : evm_limit ≤ of_string 16 hex
  small : of_string 16 hex < stark_prime

felt_of_hex-eq_some :
    (hex c : Text)
    → felt_of_hex hex ≡ some c
    → (1 ≤ length hex)
      × (length hex ≤ 64)
      × (all is_hex hex ≡ true)
      × (evm_limit ≤ of_string 16 hex)
      × (of_string 16 hex < stark_prime)
      × (c ≡ with_0x (pad_start 64 b'0' (to_lower hex)))
felt_of_hex-eq_some hex c h =
    (ground arith, ground arith, ground arith, ground arith, ground arith, ground arith)

canonical_felt-eq_some :
    (value c : Text)
    → canonical_felt value ≡ some c
    → (hex : Text) × FeltForm value hex × (c ≡ with_0x (pad_start 64 b'0' (to_lower hex)))
unfolding canonical_felt
canonical_felt-eq_some value c h =
    let hex = strip_0x (trim value) in
    let (a, b, x, l, u, e) = felt_of_hex-eq_some hex c h in
    (
      hex,
      record {
        stripped = refl;
        some_digits = a;
        fits = b;
        all_hex = all→All is_hex hex x;
        large = l;
        small = u;
      },
      e,
    )

-- What a canonical felt holds behind the prefix.
abbrev padded : Text → Text
padded hex = pad_start 64 b'0' (to_lower hex)

padded-Hex : (hex : Text) → All Hex hex → All Hex (padded hex)
padded-Hex hex h =
    All-append Hex (replicate (64 - length (to_lower hex)) b'0') (to_lower hex)
      (All-replicate Hex _ b'0' refl) (lower-Hex hex h)

length-padded : (hex : Text) → length hex ≤ 64 → length (padded hex) ≡ 64
length-padded hex h =
    let n = 64 - length (to_lower hex) in
    omega (
      arith,
      length-append (replicate n b'0') (to_lower hex),
      length-replicate {A = ℕ} n b'0',
      length-to_lower hex,
    )

to_lower-padded : (hex : Text) → to_lower (padded hex) ≡ padded hex
unfolding to_lower
to_lower-padded hex =
    let n = 64 - length (to_lower hex) in
    map-append lower_unit (replicate n b'0') (to_lower hex)
    ∙ ap₂ ◌++◌ (map-replicate lower_unit n b'0') (to_lower_idem hex)

values-lower : (hex : Text) → All Hex hex → map digit_value (to_lower hex) ≡ map digit_value hex
unfolding to_lower
values-lower [] h = refl
values-lower (c ∷ hex) (h, hs) = ap₂ ◌∷◌ (digit_value-lower_unit c h) (values-lower hex hs)

of_string-padded : (hex : Text) → All Hex hex → of_string 16 (padded hex) ≡ of_string 16 hex
unfolding of_string
of_string-padded hex h =
    let n = 64 - length (to_lower hex) in
    let digits : map digit_value (padded hex) ≡ replicate n 0 ++ map digit_value hex =
      map-append digit_value (replicate n b'0') (to_lower hex)
      ∙ ap₂ ◌++◌ (map-replicate digit_value n b'0') (values-lower hex h) in
    rw digits (of_digits-replicate 16 (omega arith) n (map digit_value hex))

-- A text with these digits is accepted.
felt_of_hex-digits :
    (hex : Text)
    → 1 ≤ length hex
    → length hex ≤ 64
    → all is_hex hex ≡ true
    → evm_limit ≤ of_string 16 hex
    → of_string 16 hex < stark_prime
    → felt_of_hex hex ≡ some (with_0x (padded hex))
felt_of_hex-digits hex a b x l u = ground arith

padded_idem : (hex : Text) → length hex ≤ 64 → padded (padded hex) ≡ padded hex
padded_idem hex h =
    let full : 64 - length (to_lower (padded hex)) ≡ 0 =
      omega (arith, length-to_lower (padded hex), length-padded hex h) in
    rw full (to_lower-padded hex)

canonical_felt-padded :
    (hex : Text)
    → length hex ≤ 64
    → All Hex hex
    → evm_limit ≤ of_string 16 hex
    → of_string 16 hex < stark_prime
    → canonical_felt (with_0x (padded hex)) ≡ some (with_0x (padded hex))
unfolding canonical_felt strip_0x
canonical_felt-padded hex b h l u =
    let x = padded-Hex hex h in
    let n = length-padded hex b in
    let same = of_string-padded hex h in
    rw (trim-Solid (with_0x (padded hex)) (Hex-All-Solid (padded hex) x)) (
      felt_of_hex-digits (padded hex) (omega arith) (omega arith) (All→all is_hex (padded hex) x)
        (rw same l) (rw same u)
      ∙ ap (λ t. some (with_0x t)) (padded_idem hex b))

-- A canonical felt is its own canonical form, has 66 characters, and stands for the same number as
-- the text that it comes from.
pub canonical_felt-stable :
    (value c : Text)
    → canonical_felt value ≡ some c
    → (canonical_felt c ≡ some c)
      × (length c ≡ 66)
      × (of_string 16 (drop 2 c) ≡ of_string 16 (strip_0x (trim value)))
canonical_felt-stable value c h =
    let (hex, f, e) = canonical_felt-eq_some value c h in
    let n = length-padded hex f.fits in
    let same = of_string-padded hex f.all_hex in
    rw e (
      canonical_felt-padded hex f.fits f.all_hex f.large f.small,
      ap (λ (k : ℕ). suc (suc k)) n,
      same ∙ ap (of_string 16) (sym f.stripped),
    )
