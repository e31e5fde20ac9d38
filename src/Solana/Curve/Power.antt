-- ===== src/Solana/Curve/Power.antt =====
-- The square-and-multiply loop computes a power modulo p.
use open_beanie.Base.{
  ℕ, zero, suc, ◌+◌, ◌*◌, ◌/◌, ◌%◌, ◌^◌, ◌≤◌, ◌<◌, ◌≡◌, refl, sym, ap, ◌∙◌, ◌==◌, arith, Bool-cases,
  inl, inr,
}
use open_beanie.Solana.Curve.{p25519, mod_pow_loop, mod_pow}
use native.Mathlib.Nat.{
  pow-suc, pow-zero, add-mul-mod_self_left, div-add-mod, mul_comm, mul_assoc, mod-mod,
}

module _ (m : ℕ) where
  mod-mul : (a b : ℕ) → a % m * b % m ≡ a * b % m
  mod-mul a b =
      let whole : a * b ≡ a % m * b + m * (a / m * b) =
        omega (arith, ap (λ (t : ℕ). t * b) (div-add-mod a m)) in
      sym (rw whole (add-mul-mod_self_left (a % m * b) m (a / m * b)))

  mul-mod : (a b : ℕ) → a * (b % m) % m ≡ a * b % m
  mul-mod a b = rw (mul_comm a (b % m), mul_comm a b) (mod-mul b a)

  mod-pow : (a n : ℕ) → (a % m) ^ n % m ≡ a ^ n % m
  mod-pow a zero = ap (λ (t : ℕ). t % m) (pow-zero (a % m) ∙ sym (pow-zero a))
  mod-pow a (suc n) =
      rw (pow-suc (a % m) n, pow-suc a n)
        (sym (mod-mul ((a % m) ^ n) (a % m))
          ∙ rw (mod-pow a n) (mod-mul (a ^ n) (a % m) ∙ mul-mod (a ^ n) a))

  mul-mod-pow : (r a n : ℕ) → r * (a % m) ^ n % m ≡ r * a ^ n % m
  mul-mod-pow r a n = sym (mul-mod r ((a % m) ^ n)) ∙ rw (mod-pow a n) (mul-mod r (a ^ n))

pow_square : (b k j : ℕ) → j ≡ k + k → (b * b) ^ k ≡ b ^ j
pow_square b zero j h = let e : j ≡ 0 = omega arith in rw e (pow-zero (b * b) ∙ sym (pow-zero b))
pow_square b (suc k) zero h = absurd (omega arith)
pow_square b (suc k) (suc zero) h = absurd (omega arith)
pow_square b (suc k) (suc (suc j)) h =
    rw (pow-suc (b * b) k, pow-suc b (suc j), pow-suc b j, pow_square b k j (omega arith))
      (sym (mul_assoc (b ^ j) b b))

mod_pow_loop-zero : (fuel result b : ℕ) → mod_pow_loop fuel result b 0 ≡ result
unfolding mod_pow_loop
mod_pow_loop-zero zero result b = refl
mod_pow_loop-zero (suc fuel) result b = refl

mod_pow_loop-even :
    (fuel result b e : ℕ)
    → 0 < e
    → e % 2 ≡ 0
    → mod_pow_loop (suc fuel) result b e ≡ mod_pow_loop fuel result (b * b % p25519) (e / 2)
unfolding mod_pow_loop
mod_pow_loop-even fuel result b e h k = ground arith

mod_pow_loop-odd :
    (fuel result b e : ℕ)
    → e % 2 ≡ 1
    → mod_pow_loop (suc fuel) result b e
      ≡ mod_pow_loop fuel (result * b % p25519) (b * b % p25519) (e / 2)
unfolding mod_pow_loop
mod_pow_loop-odd fuel result b e k = ground arith

-- `result * b ^ e` modulo p does not change.
mod_pow_loop_lem :
    (fuel result b e : ℕ)
    → e ≤ fuel
    → result % p25519 ≡ result
    → mod_pow_loop fuel result b e ≡ result * b ^ e % p25519
mod_pow_loop_lem fuel result b zero h k =
    mod_pow_loop-zero fuel result b
    ∙ sym k
    ∙ ap (λ (t : ℕ). t % p25519) (omega (arith, ap (λ (t : ℕ). result * t) (pow-zero b)))
mod_pow_loop_lem zero result b (suc e) h k = absurd (omega arith)
mod_pow_loop_lem (suc fuel) result b (suc e) h k = elim (Bool-cases (suc e % 2 == 0)) [
  | inl t ↦
      let half = suc e / 2 in
      let twice : suc e ≡ half + half = ground arith in
      mod_pow_loop-even fuel result b (suc e) (omega arith) (ground arith)
      ∙ mod_pow_loop_lem fuel result (b * b % p25519) half (omega arith) k
      ∙ mul-mod-pow p25519 result (b * b) half
      ∙ ap (λ (t : ℕ). result * t % p25519) (pow_square b half (suc e) twice)
  | inr t ↦
      let half = suc e / 2 in
      let twice : e ≡ half + half = ground arith in
      mod_pow_loop-odd fuel result b (suc e) (ground arith)
      ∙ mod_pow_loop_lem fuel (result * b % p25519) (b * b % p25519) half (omega arith)
          (mod-mod (result * b) p25519)
      ∙ mul-mod-pow p25519 (result * b % p25519) (b * b) half
      ∙ mod-mul p25519 (result * b) ((b * b) ^ half)
      ∙ ap (λ (t : ℕ). result * b * t % p25519) (pow_square b half e twice)
      ∙ ap (λ (t : ℕ). t % p25519) (omega (arith, ap (λ (t : ℕ). result * t) (pow-suc b e)))
]

-- The square-and-multiply loop computes the power modulo p.
pub mod_pow_lem : (base e : ℕ) → mod_pow base e ≡ base ^ e % p25519
unfolding mod_pow
mod_pow_lem base e =
    mod_pow_loop_lem e 1 (base % p25519) e (omega arith) refl
    ∙ mul-mod-pow p25519 1 base e
    ∙ ap (λ (t : ℕ). t % p25519) (omega arith)
