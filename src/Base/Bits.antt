-- ===== src/Base/Bits.antt =====
-- Shifts, masks and disjoint `|` of JavaScript numbers and BigInts as arithmetic.
use Prim.Native.Nat.{
  ℕ, zero, suc, ◌+◌, ◌*◌, ◌/◌, ◌%◌, ◌^◌, ◌≤◌, ◌<◌, max, bit_or, digits, bit_or-bitwise,
}
use mathlib.Core.Path.{◌≡◌, ap, ◌∙◌}
use native.Mathlib.Nat.{pow-suc}
use native.Mathlib.Omega.{arith}

-- `x << k` and `x >> k` of a BigInt.
abbrev pub shl : ℕ → ℕ → ℕ
shl x k = x * 2 ^ k

abbrev pub shr : ℕ → ℕ → ℕ
shr x k = x / 2 ^ k

-- `x & (2 ^ k - 1)`
abbrev pub low_bits : ℕ → ℕ → ℕ
low_bits x k = x % 2 ^ k

pub zero-bit_or : (b : ℕ) → bit_or 0 b ≡ b
zero-bit_or b = bit_or-bitwise 0 b

-- Any fuel `m` from `a` on, here below a bound `n`, gives the value.
bit_or-digits : (n m a b : ℕ) → m ≤ n → a ≤ m → bit_or a b ≡ digits (λ low. low) max m a b
bit_or-digits n zero zero b small fits = bit_or-bitwise 0 b
bit_or-digits n zero (suc a) b small fits = absurd (omega arith)
bit_or-digits n (suc m) zero b small fits = bit_or-bitwise 0 b
bit_or-digits zero (suc m) (suc a) b small fits = absurd (omega arith)
bit_or-digits (suc n) (suc m) (suc a) b small fits =
    let half = suc a / 2 in
    let own = bit_or-digits n a half (b / 2) (omega arith) (omega arith) in
    let more = bit_or-digits n m half (b / 2) (omega arith) (omega arith) in
    omega (arith, bit_or-bitwise (suc a) b, own, more)

-- The lowest bit, and the others.
bit_or_halves : (a b : ℕ) → bit_or a b ≡ max (a % 2) (b % 2) + 2 * bit_or (a / 2) (b / 2)
bit_or_halves zero b = omega (arith, zero-bit_or b, zero-bit_or (b / 2))
bit_or_halves (suc a) b =
    let whole = bit_or-digits (suc (suc a)) (suc (suc a)) (suc a) b (omega arith) (omega arith) in
    let halves = bit_or-digits (suc a) (suc a) (suc a / 2) (b / 2) (omega arith) (omega arith) in
    omega (arith, whole, halves)

-- `a | (b << k)` is a sum if `a` has at most `k` bits.
pub bit_or_disjoint : (k a b : ℕ) → a < 2 ^ k → bit_or a (shl b k) ≡ a + shl b k
bit_or_disjoint zero a b h = let e : a ≡ 0 = omega arith in rw e (zero-bit_or (b * 1) ∙ omega arith)
bit_or_disjoint (suc k) a b h =
    let e : b * 2 ^ suc k ≡ b * 2 ^ k * 2 = omega (arith, ap (λ (t : ℕ). b * t) (pow-suc 2 k)) in
    let e' : b * 2 ^ suc k / 2 ≡ b * 2 ^ k = omega arith in
    let low : a / 2 < 2 ^ k = omega (arith, pow-suc 2 k) in
    let ih : bit_or (a / 2) (b * 2 ^ suc k / 2) ≡ a / 2 + b * 2 ^ k =
      rw e' (bit_or_disjoint k (a / 2) b low) in
    omega (arith, bit_or_halves a (b * 2 ^ suc k))
