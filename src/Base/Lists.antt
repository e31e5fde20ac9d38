-- ===== src/Base/Lists.antt =====
-- Lists measured and indexed by the native numbers, under the library's names.
use Prim.Native.Nat.{ℕ, zero, suc, ◌+◌, ◌*◌, min}
use Prim.Native.Char.{code}
use Prim.Native.String.{String}
use mathlib.Core.Path.{◌≡◌, refl, ap, ◌∙◌}
use mathlib.Core.Bool.{Bool, true, ◌&&◌}
use mathlib.Core.Option.{Option, none, some}
use mathlib.Core.List.{List, [], ◌∷◌, ◌++◌, map, reverse, reverse-cons, append_assoc}
use native.Mathlib.Numerals.{add-one}
use native.Mathlib.Omega.{arith}

-- The code units of an ASCII literal.
abbrev pub codes : String → List ℕ
codes String.[] = []
codes (String.◌∷◌ c s) = code c ∷ codes s

module _ {ℓ} {A : Type ℓ} where
  abbrev pub length : List A → ℕ
  length [] = 0
  length (_ ∷ xs) = suc (length xs)

  abbrev pub get_elem? : List A → ℕ → Option A
  get_elem? [] _ = none
  get_elem? (x ∷ _) zero = some x
  get_elem? (_ ∷ xs) (suc i) = get_elem? xs i

  abbrev pub get_or : List A → ℕ → A → A
  get_or [] _ d = d
  get_or (x ∷ _) zero _ = x
  get_or (_ ∷ xs) (suc i) d = get_or xs i d

  abbrev pub take : ℕ → List A → List A
  take zero _ = []
  take (suc _) [] = []
  take (suc n) (x ∷ xs) = x ∷ take n xs

  abbrev pub drop : ℕ → List A → List A
  drop zero xs = xs
  drop (suc _) [] = []
  drop (suc n) (_ ∷ xs) = drop n xs

  abbrev pub replicate : ℕ → A → List A
  replicate zero _ = []
  replicate (suc n) x = x ∷ replicate n x

  abbrev pub concat : List (List A) → List A
  concat [] = []
  concat (xs ∷ xss) = xs ++ concat xss

  abbrev pub all : (A → Bool) → List A → Bool
  all p [] = true
  all p (x ∷ xs) = p x && all p xs

  abbrev pub All {κ} : (A → Type κ) → List A → Type κ
  All P [] = Unit {κ}
  All P (x ∷ xs) = P x × All P xs

module _ {ℓ} {A : Type ℓ} where
  pub length-append : (xs ys : List A) → length (xs ++ ys) ≡ length xs + length ys
  length-append [] ys = omega arith
  length-append (x ∷ xs) ys = omega (arith, length-append xs ys)

  pub length-reverse : (xs : List A) → length (reverse xs) ≡ length xs
  length-reverse [] = refl
  length-reverse (x ∷ xs) = simp (reverse-cons x xs, length-append, length-reverse xs, add-one)

  pub length-replicate : (n : ℕ) (x : A) → length (replicate n x) ≡ n
  length-replicate zero x = refl
  length-replicate (suc n) x = ap suc (length-replicate n x)

  pub length-take : (n : ℕ) (xs : List A) → length (take n xs) ≡ min n (length xs)
  length-take zero xs = omega arith
  length-take (suc n) [] = omega arith
  length-take (suc n) (x ∷ xs) = omega (arith, length-take n xs)

  pub length-map {κ} : {B : Type κ} (f : A → B) (xs : List A) → length (map f xs) ≡ length xs
  length-map f [] = refl
  length-map f (x ∷ xs) = ap suc (length-map f xs)

  pub take-append : (xs ys : List A) (n : ℕ) → length xs ≡ n → take n (xs ++ ys) ≡ xs
  take-append [] ys zero h = refl
  take-append [] ys (suc n) h = absurd (omega arith)
  take-append (x ∷ xs) ys zero h = absurd (omega arith)
  take-append (x ∷ xs) ys (suc n) h = ap (x ∷◌) (take-append xs ys n (omega arith))

  pub drop-append : (xs ys : List A) (n : ℕ) → length xs ≡ n → drop n (xs ++ ys) ≡ ys
  drop-append [] ys zero h = refl
  drop-append [] ys (suc n) h = absurd (omega arith)
  drop-append (x ∷ xs) ys zero h = absurd (omega arith)
  drop-append (x ∷ xs) ys (suc n) h = drop-append xs ys n (omega arith)

  pub All-append {κ} : (P : A → Type κ) (xs ys : List A) → All P xs → All P ys → All P (xs ++ ys)
  All-append P [] ys h k = k
  All-append P (x ∷ xs) ys (h, hs) k = (h, All-append P xs ys hs k)

  pub All-reverse {κ} : (P : A → Type κ) (xs : List A) → All P xs → All P (reverse xs)
  All-reverse P [] h = tt
  All-reverse P (x ∷ xs) (h, hs) =
      rw (reverse-cons x xs) (All-append P (reverse xs) (x ∷ []) (All-reverse P xs hs) (h, tt))

  pub All-take {κ} : (P : A → Type κ) (n : ℕ) (xs : List A) → All P xs → All P (take n xs)
  All-take P zero xs h = tt
  All-take P (suc n) [] h = tt
  All-take P (suc n) (x ∷ xs) (h, hs) = (h, All-take P n xs hs)

  pub All-replicate {κ} : (P : A → Type κ) (n : ℕ) (x : A) → P x → All P (replicate n x)
  All-replicate P zero x h = tt
  All-replicate P (suc n) x h = (h, All-replicate P n x h)

  pub map-replicate {κ} :
      {B : Type κ} (f : A → B) (n : ℕ) (x : A) → map f (replicate n x) ≡ replicate n (f x)
  map-replicate f zero x = refl
  map-replicate f (suc n) x = ap (f x ∷◌) (map-replicate f n x)

module _ {ℓ} {A : Type ℓ} where
  pub drop-append_add :
      (xs ys : List A) (n k : ℕ) → n ≡ length xs + k → drop n (xs ++ ys) ≡ drop k ys
  drop-append_add [] ys n k h = let e : n ≡ k = omega arith in rw e
  drop-append_add (x ∷ xs) ys zero k h = absurd (omega arith)
  drop-append_add (x ∷ xs) ys (suc n) k h = drop-append_add xs ys n k (omega arith)

  -- The `i`-th of consecutive pieces of the same width.
  pub take-drop-concat :
      (w : ℕ) (xss : List (List A)) (rest : List A) (i n : ℕ) {xs : List A}
      → All (λ xs. length xs ≡ w) xss
      → get_elem? xss i ≡ some xs
      → n ≡ i * w
      → take w (drop n (concat xss ++ rest)) ≡ xs
  take-drop-concat w [] rest i n h g e = cc
  take-drop-concat w (ys ∷ xss) rest zero n {xs} (h, hs) g e =
      let first : n ≡ 0 = omega arith in
      let same : ys ≡ xs = cc in
      rw (first, append_assoc ys (concat xss) rest) (take-append ys (concat xss ++ rest) w h ∙ same)
  take-drop-concat w (ys ∷ xss) rest (suc i) n (h, hs) g e =
      rw
        (
          append_assoc ys (concat xss) rest,
          drop-append_add ys (concat xss ++ rest) n (i * w) (omega arith),
        )
        (take-drop-concat w xss rest i (i * w) hs g refl)

module _ {ℓ} {A : Type ℓ} where
  pub replicate-append :
      (m n k : ℕ) (x : A) → k ≡ m + n → replicate m x ++ replicate n x ≡ replicate k x
  replicate-append zero n k x h = let e : n ≡ k = omega arith in rw e
  replicate-append (suc m) n zero x h = absurd (omega arith)
  replicate-append (suc m) n (suc k) x h = ap (x ∷◌) (replicate-append m n k x (omega arith))

  pub concat-replicate :
      (w n k : ℕ) (x : A) → k ≡ w * n → concat (replicate n (replicate w x)) ≡ replicate k x
  concat-replicate w zero k x h = let e : k ≡ 0 = omega arith in rw e
  concat-replicate w (suc n) k x h =
      rw (concat-replicate w n (w * n) x refl) (replicate-append w (w * n) k x (omega arith))

module _ {ℓ} {A : Type ℓ} where
  pub all→All : (p : A → Bool) (xs : List A) → all p xs ≡ true → All (λ x. p x ≡ true) xs
  all→All p [] h = tt
  all→All p (x ∷ xs) h = (ground arith, all→All p xs (ground arith))

  pub All→all : (p : A → Bool) (xs : List A) → All (λ x. p x ≡ true) xs → all p xs ≡ true
  All→all p [] h = refl
  All→all p (x ∷ xs) (h, hs) = rw (h, All→all p xs hs)

  pub All-map {κ λ'} :
      {B : Type κ} (f : A → B) (P : A → Type λ') (Q : B → Type λ')
      → ((x : A) → P x → Q (f x))
      → (xs : List A) → All P xs
      → All Q (map f xs)
  All-map f P Q step [] h = tt
  All-map f P Q step (x ∷ xs) (h, hs) = (step x h, All-map f P Q step xs hs)

  pub All-imp {κ} : (P Q : A → Type κ) → ((x : A) → P x → Q x) → (xs : List A) → All P xs → All Q xs
  All-imp P Q step [] h = tt
  All-imp P Q step (x ∷ xs) (h, hs) = (step x h, All-imp P Q step xs hs)

  pub map_idem :
      (f : A → A) → ((x : A) → f (f x) ≡ f x) → (xs : List A) → map f (map f xs) ≡ map f xs
  map_idem f h [] = refl
  map_idem f h (x ∷ xs) = cc (h x, map_idem f h xs)
