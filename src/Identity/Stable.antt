-- ===== src/Identity/Stable.antt =====
-- A canonical address, of any chain, is its own canonical form.
use open_beanie.Base.{
  ℕ, ◌≡◌, refl, ap, Bool, true, false, not, ◌&&◌, ◌==◌, leb, [], ◌∷◌, some, Text, length, all, All,
  arith, all→All, All-imp, Bool-cases, Option-cases, inl, inr, &&-true, map_idem,
}
use mathlib.Core.Path.{subst}
use open_beanie.Base.Strings.{trim, trim-Solid, to_upper, upper_unit, Solid, is_space}
use open_beanie.Chains.{Kind, evm, starknet, solana, chain_by_key, wire}
use open_beanie.Identity.{is_base58_unit, canonical_solana, canonical_for, canonical_address}
use open_beanie.Identity.Canonical.{canonical_evm-stable, canonical_felt-stable}
use open_beanie.Solana.Base58.{alphabet, index_of, base58_decode}

not-false : (b : Bool) → not b ≡ true → b ≡ false
not-false true h = cc
not-false false h = refl

index_of-Solid : (c i : ℕ) (xs : Text) → All Solid xs → index_of c xs ≡ some i → Solid c
unfolding index_of
index_of-Solid c i [] h e = cc
index_of-Solid c i (x ∷ xs) (h, hs) e = elim (Bool-cases (c == x)) [
  | inl same ↦ let eq : c ≡ x = ground (arith, same) in rw eq h
  | inr other ↦ elim (Option-cases (index_of c xs)) [
    | inl no_more ↦ cc (rw (index_of, other, no_more) at e)
    | inr (j, found) ↦ index_of-Solid c j xs hs found
  ]
]

alphabet-Solid : All Solid alphabet
alphabet-Solid =
    All-imp _ Solid (λ c h. not-false (is_space c) h) alphabet
      (all→All (λ c. not (is_space c)) alphabet refl)

base58_unit-Solid : (c : ℕ) → is_base58_unit c ≡ true → Solid c
base58_unit-Solid c h = elim (Option-cases (index_of c alphabet)) [
  | inl e ↦ cc (rw (e, is_base58_unit) at h)
  | inr (i, e) ↦ index_of-Solid c i alphabet alphabet-Solid e
]

canonical_solana-stable :
    (value c : Text) → canonical_solana value ≡ some c → canonical_solana c ≡ some c
unfolding canonical_solana
canonical_solana-stable value c h =
    let t = trim value in
    let test = leb 32 (length t) && leb (length t) 44 && all is_base58_unit t in
    elim (Bool-cases test) [
      | inr e ↦ cc (rw (canonical_solana, e) at h)
      | inl e ↦ elim (Option-cases (base58_decode t)) [
        | inl d ↦ cc (rw (canonical_solana, e, d) at h)
        | inr (b, d) ↦ elim (Bool-cases (length b == 32)) [
          | inr n ↦ cc (rw (canonical_solana, e, d, n) at h)
          | inl n ↦
              let same : t ≡ c = cc (rw (canonical_solana, e, d, n) at h) in
              let units =
                all→All is_base58_unit t (&&-true (leb 32 (length t) && leb (length t) 44) _ e).1 in
              let solid = trim-Solid t (All-imp _ Solid base58_unit-Solid t units) in
              subst (λ (x : Text). canonical_solana x ≡ some x) same
                (rw (canonical_solana, solid, e, d, n) (ap (λ (x : Text). some x) solid))
        ]
      ]
    ]

canonical_for-stable :
    (k : Kind) (value c : Text) → canonical_for k value ≡ some c → canonical_for k c ≡ some c
canonical_for-stable evm value c h = (canonical_evm-stable value c h).0
canonical_for-stable starknet value c h = (canonical_felt-stable value c h).0
canonical_for-stable solana value c h = canonical_solana-stable value c h

-- A canonical address of a chain is its own canonical form on that chain.
pub canonical_address-stable :
    (key value c : Text) → canonical_address key value ≡ some c → canonical_address key c ≡ some c
unfolding canonical_address
canonical_address-stable key value c h = elim (Option-cases (chain_by_key key)) [
  | inl e ↦ cc (rw (canonical_address, e) at h)
  | inr (chain, e) ↦
      rw (canonical_address, e)
        (canonical_for-stable chain.kind value c (rw (canonical_address, e) at h))
]

upper_unit_idem : (c : ℕ) → upper_unit (upper_unit c) ≡ upper_unit c
unfolding upper_unit
upper_unit_idem c = ground arith

pub wire_idem : (key : Text) → wire (wire key) ≡ wire key
unfolding wire to_upper
wire_idem key = map_idem upper_unit upper_unit_idem key
