-- ===== src/Gasless/Settlement/Outcomes.antt =====
-- What the answer about a payment on Solana says of the chain.
use open_beanie.Base.{
  ℕ, zero, suc, ◌+◌, ◌≤◌, ◌<◌, ◌≡◌, refl, ap, true, false, ◌&&◌, ltb, List, [], ◌∷◌, Option, none,
  some, Text, text_eq, get_elem?, arith, text_eq→eq, text_eq_refl, Bool-cases, &&-true, inl, inr,
}
use open_beanie.Base.Result.{Result, ok, err, Result-cases}
use open_beanie.Onchain.{ChainError}
use open_beanie.Onchain.Deposits.{Scan, is_text}
use open_beanie.Store.{Deposit}
use open_beanie.Gasless.Settlement.{
  settle_max_polls, Settled, confirmed, expired, unknown, Settlement, is_paid, Answers, height_at,
  scan_at, settle_loop, await_solana_settlement,
}

-- The deposit that the payment makes.
abbrev pub Pays : Settlement → Deposit → Type 0
Pays p d = (d.amount ≡ p.amount_raw) × (d.from ≡ some p.owner)

abbrev pub Quiet : Settlement → List Deposit → Type 0
Quiet p ds = (i : ℕ) (d : Deposit) → get_elem? ds i ≡ some d → ¬ Pays p d

is_text-eq_true : (o : Option Text) (t : Text) → is_text o t ≡ true → o ≡ some t
is_text-eq_true none t h = cc
is_text-eq_true (some s) t h = ap (λ (x : Text). some x) (text_eq→eq s t h)

is_paid-found :
    (p : Settlement) (ds : List Deposit)
    → is_paid p ds ≡ true
    → (i : ℕ) × (d : Deposit) × (get_elem? ds i ≡ some d) × Pays p d
unfolding is_paid
is_paid-found p [] h = cc
is_paid-found p (d ∷ ds) h =
    elim (Bool-cases (text_eq d.amount p.amount_raw && is_text d.from p.owner)) [
      | inl e ↦
          let (a, b) = &&-true (text_eq d.amount p.amount_raw) _ e in
          (0, d, refl, (text_eq→eq _ _ a, is_text-eq_true _ _ b))
      | inr e ↦
          let (i, d', at, pays) = is_paid-found p ds (rw (is_paid, e) at h) in (suc i, d', at, pays)
    ]

is_paid-Quiet : (p : Settlement) (ds : List Deposit) → is_paid p ds ≡ false → Quiet p ds
unfolding is_paid
is_paid-Quiet p [] h i d at pays = cc
is_paid-Quiet p (d ∷ ds) h zero d' at (a, b) =
    let same : d ≡ d' = cc in
    let a' : d.amount ≡ p.amount_raw = rw same a in
    let b' : d.from ≡ some p.owner = rw same b in
    cc (rw (is_paid, a', b', text_eq_refl p.amount_raw, text_eq_refl p.owner) at h)
is_paid-Quiet p (d ∷ ds) h (suc i) d' at pays = is_paid-Quiet p ds (ground (arith, h)) i d' at pays

module _ (sha256 : List ℕ → List ℕ) (answers : ℕ → Answers) (max_pages : ℕ) (p : Settlement) where
  abbrev height : ℕ → Result ChainError ℕ
  height = height_at sha256 answers max_pages p

  abbrev scan : ℕ → ℕ → Result ChainError Scan
  scan = scan_at sha256 answers max_pages p

  -- The polls from the `i`-th, at a slot, up to the `j`-th, at another: each failed and stayed, or
  -- found the blockhash still alive and no payment, and went on where its scan ended.
  pub data Unpaid : ℕ → ℕ → ℕ → ℕ → Type 0 where
    here : {i c : ℕ} → Unpaid i c i c
    no_height :
        {i c j e : ℕ} (x : ChainError) → height i ≡ err x → Unpaid (i + 1) c j e → Unpaid i c j e
    no_scan :
        {i c j e : ℕ} (x : ChainError) → scan i c ≡ err x → Unpaid (i + 1) c j e → Unpaid i c j e
    quiet :
        {i c j e : ℕ} (h : ℕ) (s : Scan)
        → height i ≡ ok h
        → h ≤ p.last_valid_block_height
        → scan i c ≡ ok s
        → Quiet p s.deposits
        → Unpaid (i + 1) s.next_block j e
        → Unpaid i c j e

  -- What each answer means, for polls from the `i`-th on, below a bound.
  abbrev pub Means : ℕ → ℕ → ℕ → Settled → Type 0
  Means i c bound confirmed =
      (j e : ℕ) × (s : Scan) × (k : ℕ) × (d : Deposit) × (j < bound)
      × Unpaid i c j e
      × (scan j e ≡ ok s)
      × (get_elem? s.deposits k ≡ some d)
      × Pays p d
  Means i c bound expired =
      (j e h : ℕ) × (s : Scan) × (j < bound)
      × Unpaid i c j e
      × (height j ≡ ok h)
      × (p.last_valid_block_height < h)
      × (scan j e ≡ ok s)
      × Quiet p s.deposits
  Means i c bound unknown = (e : ℕ) × Unpaid i c bound e

  -- A poll in front.
  step :
      (i c c' bound : ℕ) (r : Settled)
      → ((j e : ℕ) → Unpaid (i + 1) c' j e → Unpaid i c j e)
      → Means (i + 1) c' bound r
      → Means i c bound r
  step i c c' bound confirmed f (j, e, s, k, d, lt, u, a, b, q) =
      (j, e, s, k, d, lt, f j e u, a, b, q)
  step i c c' bound expired f (j, e, h, s, lt, u, a, b, g, q) =
      (j, e, h, s, lt, f j e u, a, b, g, q)
  step i c c' bound unknown f (e, u) = (e, f bound e u)

  settle_loop-Means :
      (n i c bound : ℕ)
      → bound ≡ i + n
      → Means i c bound (settle_loop sha256 answers max_pages p n i c)
  unfolding settle_loop
  settle_loop-Means zero i c bound e = let same : i ≡ bound = omega arith in rw (← same) (c, here)
  settle_loop-Means (suc n) i c bound e =
      let later = λ (c' : ℕ). settle_loop-Means n (i + 1) c' bound (omega arith) in
      elim (Result-cases (height i)) [
        | inr (x, no_h) ↦
            rw (settle_loop, no_h) (step i c c bound _ (λ j e' u. no_height x no_h u) (later c))
        | inl (h, is_h) ↦ elim (Result-cases (scan i c)) [
          | inr (x, no_s) ↦
              rw (settle_loop, is_h, no_s)
                (step i c c bound _ (λ j e' u. no_scan x no_s u) (later c))
          | inl (s, is_s) ↦ elim (Bool-cases (is_paid p s.deposits)) [
            | inl paid ↦
                let (k, d, at, pays) = is_paid-found p s.deposits paid in
                rw (settle_loop, is_h, is_s, paid)
                  (i, c, s, k, d, omega arith, here, is_s, at, pays)
            | inr unpaid ↦
                let silent = is_paid-Quiet p s.deposits unpaid in
                elim (Bool-cases (ltb p.last_valid_block_height h)) [
                  | inl late ↦
                      rw (settle_loop, is_h, is_s, unpaid, late)
                        (i, c, h, s, omega arith, here, is_h, ground (arith, late), is_s, silent)
                  | inr early ↦
                      rw (settle_loop, is_h, is_s, unpaid, early)
                        (step i c s.next_block bound _
                          (λ j e' u. quiet h s is_h (ground (arith, early)) is_s silent u)
                          (later s.next_block))
                ]
          ]
        ]
      ]

  -- The wait for a settlement ends within 40 polls: as confirmed where a poll finds the payment,
  -- as expired where one finds no payment after it read a height above the last valid one, and as
  -- unknown only where no poll did either; the polls before failed, or found no payment and a
  -- height that was not above, and each scans from where the last that succeeded ended.
  pub await_solana_settlement-Means :
      Means 0 p.from_slot settle_max_polls (await_solana_settlement sha256 answers max_pages p)
  unfolding await_solana_settlement
  await_solana_settlement-Means =
      settle_loop-Means settle_max_polls 0 p.from_slot settle_max_polls refl
