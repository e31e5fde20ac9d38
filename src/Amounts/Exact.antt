-- ===== src/Amounts/Exact.antt =====
-- A text that is read as an amount stands for it exactly.
use open_beanie.Base.{
  ℕ, zero, suc, ◌+◌, ◌-◌, ◌*◌, ◌^◌, ◌≤◌, ◌<◌, ◌≡◌, refl, sym, ap, ◌∙◌, true, not, ◌&&◌, ◌==◌, ltb,
  [], ◌∷◌, ◌++◌, map, some, Text, length, all, replicate, arith, Bool-cases, Option-cases, inl, inr,
  ◌⊎◌, map-replicate, &&-true,
}
use open_beanie.Base.Positional.{of_digits, of_digits-replicate}
use open_beanie.Base.Strings.{trim, pad_end, to_string, of_string, is_digit, digit_value}
use open_beanie.Amounts.{
  Decimal, span_digits, split_decimal, with_fraction, strip_zeros, parse_decimal,
}
use mathlib.Core.List.{foldl, foldl-append, map-append, append-nil, append_assoc}
use native.Mathlib.Nat.{pow-suc}

of_string-strip_zeros : (t : Text) → of_string 10 (strip_zeros t) ≡ of_string 10 t
unfolding strip_zeros of_string digit_value
of_string-strip_zeros [] = refl
of_string-strip_zeros (c ∷ []) = refl
of_string-strip_zeros (c ∷ d ∷ t) = elim (Bool-cases (c == b'0' && is_digit d)) [
  | inl e ↦
      let at_zero = (&&-true (c == b'0') (is_digit d) e).0 in
      let zero_first : c ≡ b'0' = ground (arith, at_zero) in
      rw (e, strip_zeros)
        (of_string-strip_zeros (d ∷ t)
          ∙ rw zero_first (sym (of_digits-replicate 10 (omega arith) 1 (map digit_value (d ∷ t)))))
  | inr e ↦ rw (e, strip_zeros) refl
]

foldl-zeros : (k n : ℕ) → foldl (λ n d. n * 10 + d) n (replicate k 0) ≡ n * 10 ^ k
foldl-zeros zero n = omega arith
foldl-zeros (suc k) n =
    let shift : (n * 10 + 0) * 10 ^ k ≡ n * (10 ^ k * 10) = grind arith in
    foldl-zeros k (n * 10 + 0) ∙ shift ∙ ap (λ (t : ℕ). n * t) (sym (pow-suc 10 k))

of_string-zeros :
    (t : Text) (k : ℕ) → of_string 10 (t ++ replicate k b'0') ≡ of_string 10 t * 10 ^ k
unfolding of_string of_digits digit_value
of_string-zeros t k =
    rw (map-append digit_value t (replicate k b'0'), map-replicate digit_value k b'0', foldl-append)
      (foldl-zeros k (of_digits 10 (map digit_value t)))

span_digits-append : (t : Text) → (span_digits t).0 ++ (span_digits t).1 ≡ t
unfolding span_digits
span_digits-append [] = refl
span_digits-append (c ∷ t) = elim (Bool-cases (is_digit c)) [
  | inl e ↦ rw (e, span_digits) (ap (c ∷◌) (span_digits-append t))
  | inr e ↦ rw (e, span_digits) refl
]

all-span_digits : (t : Text) → all is_digit (span_digits t).0 ≡ true
unfolding span_digits
all-span_digits [] = refl
all-span_digits (c ∷ t) = elim (Bool-cases (is_digit c)) [
  | inl e ↦ rw (e, span_digits) (rw (e, all-span_digits t) refl)
  | inr e ↦ rw (e, span_digits) refl
]

-- The digits of a text, and the fraction behind the point, if there is one.
abbrev pub Reads : Text → Decimal → Type 0
Reads t p =
    (all is_digit p.whole ≡ true)
    × (all is_digit p.fraction ≡ true)
    × (1 ≤ length p.whole)
    × (((t ≡ p.whole) × (p.fraction ≡ [])) ⊎ (t ≡ p.whole ++ (b'.' ∷ p.fraction)))

with_fraction-Reads :
    (whole rest : Text) (p : Decimal)
    → all is_digit whole ≡ true
    → 1 ≤ length whole
    → with_fraction whole rest ≡ some p
    → Reads (whole ++ rest) p
with_fraction-Reads whole [] p digits one h =
    let same : ◌≡◌ {A = Decimal} (record { whole = whole; fraction = [] }) p = cc in
    rw (← same) (digits, refl, one, inl (append-nil whole, refl))
with_fraction-Reads whole (c ∷ f) p digits one h =
    elim (Bool-cases (c == b'.' && not (length f == 0) && all is_digit f)) [
      | inl e ↦
          let (front, more) = &&-true (c == b'.' && not (length f == 0)) (all is_digit f) e in
          let point : c ≡ b'.' =
            ground (arith, (&&-true (c == b'.') (not (length f == 0)) front).0) in
          let same : ◌≡◌ {A = Decimal} (record { whole = whole; fraction = f }) p =
            cc (rw e at h) in
          rw (← same) (digits, more, one, inr (ap (λ (x : ℕ). whole ++ (x ∷ f)) point))
      | inr e ↦ cc (rw e at h)
    ]

split_decimal-Reads : (t : Text) (p : Decimal) → split_decimal t ≡ some p → Reads t p
unfolding split_decimal
split_decimal-Reads t p h = elim (Bool-cases (length (span_digits t).0 == 0)) [
  | inl e ↦ cc (rw (e, split_decimal) at h)
  | inr e ↦ rw (span_digits-append t) at (
      with_fraction-Reads (span_digits t).0 (span_digits t).1 p (all-span_digits t)
        (ground (arith, e)) (rw (e, split_decimal) at h))
]

-- An input that is read consists, but for blanks around it, of digits and at most the given number
-- of digits behind a point, and gives the number that the digits stand for, scaled to the smallest
-- unit, which is not 0.
pub parse_decimal_exact :
    (input : Text) (decimals : ℕ) (out : Text)
    → parse_decimal input decimals ≡ some out
    → (p : Decimal) × (v : ℕ) × Reads (trim input) p
      × (length p.fraction ≤ decimals)
      × (v ≡ of_string 10 (p.whole ++ p.fraction) * 10 ^ (decimals - length p.fraction))
      × (0 < v)
      × (out ≡ to_string 10 v)
unfolding parse_decimal
parse_decimal_exact input decimals out h = elim (Option-cases (split_decimal (trim input))) [
  | inl e ↦ cc (rw (e, parse_decimal) at h)
  | inr (p, e) ↦
      let v = of_string 10 (strip_zeros (p.whole ++ pad_end decimals b'0' p.fraction)) in
      elim (Bool-cases (ltb decimals (length p.fraction))) [
        | inl l ↦ cc (rw (e, parse_decimal, l) at h)
        | inr l ↦ elim (Bool-cases (ltb 0 v)) [
          | inr z ↦ cc (rw (e, parse_decimal, l, z) at h)
          | inl z ↦
              let same : to_string 10 v ≡ out = cc (rw (e, parse_decimal, l, z) at h) in
              let k = decimals - length p.fraction in
              let value : v ≡ of_string 10 (p.whole ++ p.fraction) * 10 ^ k =
                of_string-strip_zeros (p.whole ++ pad_end decimals b'0' p.fraction)
                ∙ ap (of_string 10) (sym (append_assoc p.whole p.fraction (replicate k b'0')))
                ∙ of_string-zeros (p.whole ++ p.fraction) k in
              (
                p,
                v,
                split_decimal-Reads (trim input) p e,
                ground (arith, l),
                value,
                ground (arith, z),
                sym same,
              )
        ]
      ]
]
