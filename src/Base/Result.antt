-- ===== src/Base/Result.antt =====
-- Results of code that throws, with a type of errors, and signed BigInts.
use mathlib.Core.Path.{◌≡◌, refl, ap}
use Prim.Native.Nat.{ℕ}
use mathlib.Core.Option.{Option, none, some}
use mathlib.Core.Logic.{◌⊎◌, inl, inr}
use mathlib.Core.Bool.{Bool, true, false}

pub data Result {ℓ} (E : Type 0) (A : Type ℓ) : Type ℓ where
  ok : A → Result E A
  err : E → Result E A

infixl 5 ◌>>=◌ ◌>>◌
abbrev pub ◌>>=◌ {ℓ κ} :
    {E : Type 0} {A : Type ℓ} {B : Type κ} → Result E A → (A → Result E B) → Result E B
ok a >>= f = f a
err e >>= f = err e

abbrev pub ◌>>◌ {ℓ} : {E : Type 0} {B : Type ℓ} → Result E (Unit {0}) → Result E B → Result E B
m >> k = m >>= λ _. k

-- `if (!test) throw e`
abbrev pub guard : {E : Type 0} → Bool → E → Result E (Unit {0})
guard true e = ok tt
guard false e = err e

-- A successful chain of steps has a successful first step.
pub >>=-eq_ok {ℓ κ} :
    {E : Type 0} {A : Type ℓ} {B : Type κ} (m : Result E A) (f : A → Result E B) {b : B}
    → (m >>= f) ≡ ok b
    → (a : A) × (m ≡ ok a) × (f a ≡ ok b)
>>=-eq_ok (ok a) f h = (a, refl, h)
>>=-eq_ok (err e) f h = cc

pub guard-eq_ok : {E : Type 0} (b : Bool) (e : E) {t : Unit {0}} → guard b e ≡ ok t → b ≡ true
guard-eq_ok true e h = refl
guard-eq_ok false e h = cc

abbrev ok_or {ℓ} : {E : Type 0} {A : Type ℓ} → A → Result E A → A
ok_or d (ok a) = a
ok_or d (err _) = d

pub ok-injective {ℓ} :
    {E : Type 0} {A : Type ℓ} (a b : A) → ◌≡◌ {A = Result E A} (ok a) (ok b) → a ≡ b
ok-injective a b h = ap (ok_or a) h

pub err-ne-ok {ℓ} :
    {E : Type 0} {A : Type ℓ} (e : E) (a : A) → ¬ (◌≡◌ {A = Result E A} (err e) (ok a))
err-ne-ok e a h = cc

abbrev some_or {ℓ} : {A : Type ℓ} → A → Option A → A
some_or d none = d
some_or d (some a) = a

pub some-injective {ℓ} : {A : Type ℓ} (a b : A) → ◌≡◌ {A = Option A} (some a) (some b) → a ≡ b
some-injective a b h = ap (some_or a) h

-- A BigInt: `negsuc n` is -(n + 1).
pub data ℤ : Type 0 where
  pos : ℕ → ℤ
  negsuc : ℕ → ℤ

pub Result-cases {ℓ} :
    {E : Type 0} {A : Type ℓ} (r : Result E A) → ((a : A) × (r ≡ ok a)) ⊎ ((e : E) × (r ≡ err e))
Result-cases (ok a) = inl (a, refl)
Result-cases (err e) = inr (e, refl)
