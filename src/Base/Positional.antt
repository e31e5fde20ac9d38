-- ===== src/Base/Positional.antt =====
-- Numbers in positional notation, in a base from 2 on: the loops by which BigInts are taken to
-- digits and back, over any base.
use Prim.Native.Nat.{ℕ, zero, suc, ◌+◌, ◌*◌, ◌/◌, ◌%◌, ◌^◌, ◌≤◌, ◌<◌}
use mathlib.Core.Path.{◌≡◌, refl, ap, ◌∙◌}
use mathlib.Core.Logic.{inl, inr}
use mathlib.Core.List.{
  List, [], ◌∷◌, ◌++◌, foldl, reverse, foldl-append, reverse-cons, reverse-append, reverse-reverse,
}
use native.Mathlib.Nat.{pow-zero, pow-suc, mod-lt, div-add-mod, div-lt_self, div-eq_of_lt-le}
use native.Mathlib.Omega.{arith}
use open_beanie.Base.Tests.{if◌then◌else◌, ◌==◌, Bool-cases}
use open_beanie.Base.Lists.{length, All, replicate, All-reverse, length-reverse}

-- How many elements at the front of a list equal `z`: `while (i < s.length && s[i] === z) i++`.
unfoldable pub count_leading : ℕ → List ℕ → ℕ
count_leading z [] = 0
count_leading z (x ∷ xs) = if x == z then suc (count_leading z xs) else 0

module _ (b : ℕ) where
  -- `n = 0; for (const d of ds) n = n * b + d`
  unfoldable pub of_digits : List ℕ → ℕ
  of_digits = foldl (λ n d. n * b + d) 0

  -- `while (n > 0) { out.push(n % b); n /= b }`: lowest digit first. `n` rounds are enough.
  unfoldable pub digits_loop : ℕ → ℕ → List ℕ
  digits_loop zero n = []
  digits_loop (suc f) n = let rest = digits_loop f (n / b) in if n == 0 then [] else n % b ∷ rest

  unfoldable pub low_digits : ℕ → List ℕ
  low_digits n = digits_loop n n

  -- The value of digits that stand lowest first.
  abbrev pub low_value : List ℕ → ℕ
  low_value [] = 0
  low_value (d ∷ ds) = low_value ds * b + d

  of_digits-reverse : (ds : List ℕ) → of_digits (reverse ds) ≡ low_value ds
  unfolding of_digits
  of_digits-reverse [] = refl
  of_digits-reverse (d ∷ ds) =
      rw (reverse-cons d ds, foldl-append) (ap (λ n. n * b + d) (of_digits-reverse ds))

  pub of_digits-append : (xs : List ℕ) (d : ℕ) → of_digits (xs ++ d ∷ []) ≡ of_digits xs * b + d
  unfolding of_digits
  of_digits-append xs d = rw foldl-append

  module _ (big : 2 ≤ b) where
    div-cons : (n d : ℕ) → d < b → (n * b + d) / b ≡ n
    div-cons n d h = div-eq_of_lt-le b (omega arith) (omega arith)

    mod-cons : (n d : ℕ) → d < b → (n * b + d) % b ≡ d
    mod-cons n d h =
        omega (arith, div-add-mod (n * b + d) b, ap (λ (t : ℕ). b * t) (div-cons n d h))

    div-lt : (n : ℕ) → 0 < n → n / b < n
    div-lt n h = div-lt_self h big

    low_value-digits_loop : (f n : ℕ) → n ≤ f → low_value (digits_loop f n) ≡ n
    unfolding digits_loop
    low_value-digits_loop zero n h = omega arith
    low_value-digits_loop (suc f) n h = elim (Bool-cases (n == 0)) [
      | inl e ↦ rw e (ground arith)
      | inr e ↦
          rw e
            let ih = low_value-digits_loop f (n / b) (ground (arith, div-lt n)) in
              rw ih (omega (arith, div-add-mod n b))
    ]

    digits_loop-IsBelow : (f n : ℕ) → All (λ d. d < b) (digits_loop f n)
    unfolding digits_loop
    digits_loop-IsBelow zero n = tt
    digits_loop-IsBelow (suc f) n = ground (arith, mod-lt n {m = b}, digits_loop-IsBelow f (n / b))

    digits_loop-nil : (f : ℕ) → digits_loop f 0 ≡ []
    unfolding digits_loop
    digits_loop-nil zero = refl
    digits_loop-nil (suc f) = refl

    -- One round of the loop.
    digits_loop-cons :
        (f n d : ℕ) → d < b → 0 < n * b + d → digits_loop (suc f) (n * b + d) ≡ d ∷ digits_loop f n
    unfolding digits_loop
    digits_loop-cons f n d h p = ground (arith, div-cons n d h, mod-cons n d h)

    mul-grows : (n d : ℕ) → 0 < n → n < n * b + d
    mul-grows n d h = grind arith

    low_value-pos : (ds : List ℕ) (h : ℕ) → 0 < h → 0 < low_value (ds ++ h ∷ [])
    low_value-pos [] h p = omega arith
    low_value-pos (d ∷ ds) h p =
        omega (
          arith,
          low_value-pos ds h p,
          mul-grows (low_value (ds ++ h ∷ [])) d (low_value-pos ds h p),
        )

    -- The loop gives back digits whose highest is not 0.
    digits_loop-low_value :
        (ds : List ℕ) (f h : ℕ)
        → 0 < h
        → h < b
        → All (λ d. d < b) ds
        → low_value (ds ++ h ∷ []) ≤ f
        → digits_loop f (low_value (ds ++ h ∷ [])) ≡ ds ++ h ∷ []
    digits_loop-low_value ds zero h p q r le = absurd (omega (arith, low_value-pos ds h p))
    digits_loop-low_value [] (suc f) h p q r le =
        digits_loop-cons f 0 h q (omega arith) ∙ ap (h ∷◌) (digits_loop-nil f)
    digits_loop-low_value (d ∷ ds) (suc f) h p q (dl, r) le =
        let v = low_value (ds ++ h ∷ []) in
        let grows = mul-grows v d (low_value-pos ds h p) in
        digits_loop-cons f v d dl (omega arith)
        ∙ ap (d ∷◌) (digits_loop-low_value ds f h p q r (omega arith))

    digits_loop_step : (f n : ℕ) → 0 < n → digits_loop (suc f) n ≡ n % b ∷ digits_loop f (n / b)
    unfolding digits_loop
    digits_loop_step f n p = ground arith

    -- Of a positive number the loop's last digit is not 0.
    digits_loop-last :
        (f n : ℕ)
        → 0 < n
        → n ≤ f
        → (ds : List ℕ) × (h : ℕ) × (digits_loop f n ≡ ds ++ h ∷ []) × (0 < h)
    digits_loop-last zero n p le = absurd (omega arith)
    digits_loop-last (suc f) n p le = elim (Bool-cases (n / b == 0)) [
      | inl e ↦
          let z : n / b ≡ 0 = ground arith in
          let whole : n % b ≡ n = omega (arith, div-add-mod n b, ap (λ (t : ℕ). b * t) z) in
          ([], n, digits_loop_step f n p ∙ rw (z, whole) (ap (n ∷◌) (digits_loop-nil f)), p)
      | inr e ↦
          let (ds, h, eq, q) =
            digits_loop-last f (n / b) (ground arith) (omega (arith, div-lt n p)) in
          (n % b ∷ ds, h, digits_loop_step f n p ∙ ap (n % b ∷◌) eq, q)
    ]

    of_digits-zero : (xs : List ℕ) → of_digits (0 ∷ xs) ≡ of_digits xs
    unfolding of_digits
    of_digits-zero xs = ap (λ (n : ℕ). foldl (λ n d. n * b + d) n xs) (omega arith)

    pub of_digits-replicate : (z : ℕ) (xs : List ℕ) → of_digits (replicate z 0 ++ xs) ≡ of_digits xs
    of_digits-replicate zero xs = refl
    of_digits-replicate (suc z) xs = of_digits-zero (replicate z 0 ++ xs) ∙ of_digits-replicate z xs

    -- The digits of a number, highest first, have its value.
    pub of_digits-low_digits : (n : ℕ) → of_digits (reverse (low_digits n)) ≡ n
    unfolding low_digits
    of_digits-low_digits n =
        of_digits-reverse (digits_loop n n) ∙ low_value-digits_loop n n (omega arith)

    pub low_digits-IsBelow : (n : ℕ) → All (λ d. d < b) (reverse (low_digits n))
    unfolding low_digits
    low_digits-IsBelow n = All-reverse (λ d. d < b) _ (digits_loop-IsBelow n n)

    count_leading-pos : (h : ℕ) (xs : List ℕ) → 0 < h → count_leading 0 (h ∷ xs) ≡ 0
    unfolding count_leading
    count_leading-pos h xs p = ground arith

    count_leading-zero : (xs : List ℕ) → count_leading 0 (0 ∷ xs) ≡ suc (count_leading 0 xs)
    unfolding count_leading
    count_leading-zero xs = refl

    low_digits-nil : low_digits (of_digits []) ≡ []
    unfolding low_digits digits_loop of_digits
    low_digits-nil = refl

    reverse-snoc : (xs : List ℕ) (x : ℕ) → reverse (xs ++ x ∷ []) ≡ x ∷ reverse xs
    reverse-snoc xs x = reverse-append xs (x ∷ [])

    low_digits-cons :
        (h : ℕ) (ds : List ℕ)
        → 0 < h
        → h < b
        → All (λ d. d < b) ds
        → low_digits (of_digits (h ∷ ds)) ≡ reverse ds ++ h ∷ []
    unfolding low_digits
    low_digits-cons h ds p q r =
        let rs = reverse ds in
        let turn : reverse (rs ++ h ∷ []) ≡ h ∷ ds =
          reverse-snoc rs h ∙ ap (h ∷◌) (reverse-reverse ds) in
        let v : of_digits (h ∷ ds) ≡ low_value (rs ++ h ∷ []) =
          rw turn at (of_digits-reverse (rs ++ h ∷ [])) in
        rw v (digits_loop-low_value rs _ h p q (All-reverse (λ d. d < b) ds r) (omega arith))

    -- Digits, highest first, are given back from their value and the count of their leading zeros.
    pub low_digits-of_digits :
        (ds : List ℕ)
        → All (λ d. d < b) ds
        → replicate (count_leading 0 ds) 0 ++ reverse (low_digits (of_digits ds)) ≡ ds
    low_digits-of_digits [] h = rw low_digits-nil (unfold count_leading in refl)
    low_digits-of_digits (zero ∷ ds) (_, h) =
        rw (of_digits-zero ds, count_leading-zero ds) (ap (0 ∷◌) (low_digits-of_digits ds h))
    low_digits-of_digits (suc d ∷ ds) (q, h) = rw (
      count_leading-pos (suc d) ds (omega arith),
      low_digits-cons (suc d) ds (omega arith) q h,
      reverse-snoc (reverse ds) (suc d),
      reverse-reverse ds,
    )

    leading_digit : (n : ℕ) → count_leading 0 (reverse (low_digits n)) ≡ 0
    unfolding low_digits
    leading_digit zero = unfold count_leading digits_loop in refl
    leading_digit (suc n) =
        let (ds, h, eq, q) = digits_loop-last (suc n) (suc n) (omega arith) (omega arith) in
        rw (eq, reverse-snoc ds h) (count_leading-pos h (reverse ds) q)

    pub count_leading-low_digits :
        (z n : ℕ) → count_leading 0 (replicate z 0 ++ reverse (low_digits n)) ≡ z
    count_leading-low_digits zero n = leading_digit n
    count_leading-low_digits (suc z) n =
        count_leading-zero (replicate z 0 ++ reverse (low_digits n))
        ∙ ap suc (count_leading-low_digits z n)

    -- Digits stand for a number below the base to their count.
    low_value-lt : (ds : List ℕ) → All (λ d. d < b) ds → low_value ds < b ^ length ds
    low_value-lt [] h = rw (pow-zero b) (omega arith)
    low_value-lt (d ∷ ds) (h, hs) =
        let ih = low_value-lt ds hs in rw (pow-suc b (length ds)) (grind arith)

    pub of_digits-lt : (ds : List ℕ) → All (λ d. d < b) ds → of_digits ds < b ^ length ds
    of_digits-lt ds h =
        let low = low_value-lt (reverse ds) (All-reverse (λ d. d < b) ds h) in
        rw (reverse-reverse ds, length-reverse ds) at (rw (← of_digits-reverse (reverse ds)) at low)
