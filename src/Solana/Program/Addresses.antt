-- ===== src/Solana/Program/Addresses.antt =====
-- `findProgramAddress` gives the address of the highest bump whose hash is off the curve.
use open_beanie.Base.{
  ℕ, zero, suc, ◌<◌, ◌≡◌, refl, true, false, List, Text, arith, Bool-cases, ◌==◌, inl, inr,
}
use open_beanie.Base.Result.{ok, err, >>=-eq_ok}
use open_beanie.Solana.Curve.{is_on_curve}
use open_beanie.Solana.Program.{
  no_viable_address, ProgramAddress, pda_hash, bump_loop, pubkey, find_program_address,
}

module _ (sha256 : List ℕ → List ℕ) (seeds : List (List ℕ)) (program : List ℕ) where
  bump_loop-zero : bump_loop sha256 seeds program 0 ≡ err no_viable_address
  unfolding bump_loop
  bump_loop-zero = refl

  bump_loop-on :
      (n : ℕ)
      → is_on_curve (pda_hash sha256 seeds program n) ≡ true
      → bump_loop sha256 seeds program (suc n) ≡ bump_loop sha256 seeds program n
  unfolding bump_loop
  bump_loop-on n e = rw e

  bump_loop-off :
      (n : ℕ)
      → is_on_curve (pda_hash sha256 seeds program n) ≡ false
      → bump_loop sha256 seeds program (suc n)
        ≡ ok (record { address = pda_hash sha256 seeds program n; bump = n })
  unfolding bump_loop
  bump_loop-off n e = rw e

  bump_loop-eq_ok :
      (n : ℕ) (found : ProgramAddress)
      → bump_loop sha256 seeds program n ≡ ok found
      → (found.bump < n)
        × (found.address ≡ pda_hash sha256 seeds program found.bump)
        × (is_on_curve found.address ≡ false)
  bump_loop-eq_ok zero found h = cc bump_loop-zero
  bump_loop-eq_ok (suc n) found h =
      elim (Bool-cases (is_on_curve (pda_hash sha256 seeds program n))) [
        | inl e ↦
            let (below, hash, off) = bump_loop-eq_ok n found (rw (bump_loop-on n e) at h) in
            (omega arith, hash, off)
        | inr e ↦
            let same : ◌≡◌ {A = ProgramAddress}
                (record { address = pda_hash sha256 seeds program n; bump = n }) found =
              cc (rw (bump_loop-off n e) at h) in
            rw (← same) (omega arith, refl, e)
      ]

  bump_loop-above :
      (n : ℕ) (found : ProgramAddress) (b : ℕ)
      → bump_loop sha256 seeds program n ≡ ok found
      → found.bump < b
      → b < n
      → is_on_curve (pda_hash sha256 seeds program b) ≡ true
  bump_loop-above zero found b h p q = absurd (omega arith)
  bump_loop-above (suc n) found b h p q =
      elim (Bool-cases (is_on_curve (pda_hash sha256 seeds program n))) [
        | inl e ↦ elim (Bool-cases (b == n)) [
          | inl s ↦ let same : b ≡ n = ground arith in rw same e
          | inr s ↦ bump_loop-above n found b (rw (bump_loop-on n e) at h) p (ground (arith, s))
        ]
        | inr e ↦
            let same : n ≡ found.bump = cc (rw (bump_loop-off n e) at h) in absurd (omega arith)
      ]

  bump_loop-none :
      (n b : ℕ)
      → bump_loop sha256 seeds program n ≡ err no_viable_address
      → b < n
      → is_on_curve (pda_hash sha256 seeds program b) ≡ true
  bump_loop-none zero b h q = absurd (omega arith)
  bump_loop-none (suc n) b h q = elim (Bool-cases (is_on_curve (pda_hash sha256 seeds program n))) [
    | inl e ↦ elim (Bool-cases (b == n)) [
      | inl s ↦ let same : b ≡ n = ground arith in rw same e
      | inr s ↦ bump_loop-none n b (rw (bump_loop-on n e) at h) (ground (arith, s))
    ]
    | inr e ↦ cc (rw (bump_loop-off n e) at h)
  ]

module _ (sha256 : List ℕ → List ℕ) (seeds : List (List ℕ)) (program_id : Text) where
  -- What is found is the hash of seeds, bump and program for a bump below 256, and is not a point
  -- of the curve.
  pub address-find_program_address :
      (found : ProgramAddress)
      → find_program_address sha256 seeds program_id ≡ ok found
      → (program : List ℕ) × (pubkey program_id ≡ ok program)
        × (found.bump < 256)
        × (found.address ≡ pda_hash sha256 seeds program found.bump)
        × (is_on_curve found.address ≡ false)
  unfolding find_program_address
  address-find_program_address found h =
      let (program, p, l) = >>=-eq_ok (pubkey program_id) _ h in
      let (below, hash, off) = bump_loop-eq_ok sha256 seeds program 256 found l in
      (program, p, below, hash, off)

  -- Where an address is found, every higher bump of one byte hashes to a point of the curve.
  above-find_program_address :
      (found : ProgramAddress) (program : List ℕ) (b : ℕ)
      → find_program_address sha256 seeds program_id ≡ ok found
      → pubkey program_id ≡ ok program
      → found.bump < b
      → b < 256
      → is_on_curve (pda_hash sha256 seeds program b) ≡ true
  unfolding find_program_address
  above-find_program_address found program b h p lt below =
      bump_loop-above sha256 seeds program 256 found b (rw p at h) lt below

  -- Where the program id is a public key and no viable address is found, every bump of one byte
  -- hashes to a point of the curve.
  none-find_program_address :
      (program : List ℕ) (b : ℕ)
      → find_program_address sha256 seeds program_id ≡ err no_viable_address
      → pubkey program_id ≡ ok program
      → b < 256
      → is_on_curve (pda_hash sha256 seeds program b) ≡ true
  unfolding find_program_address
  none-find_program_address program b h p below =
      bump_loop-none sha256 seeds program 256 b (rw p at h) below
