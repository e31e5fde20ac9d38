-- ===== src/Identity/Route.antt =====
-- The two halves of a route's recipient.
use open_beanie.Base.{
  ◌+◌, ◌*◌, ◌^◌, ◌<◌, ◌≡◌, refl, ◌||◌, ◌==◌, some, Text, text_eq, length, arith, Bool-cases,
  Option-cases, inl, inr, ◌⊎◌, text_eq_iff,
}
use open_beanie.Base.Bits.{low_bits, shr}
use open_beanie.Base.Positional.{of_digits}
use open_beanie.Base.Strings.{of_string, of_string-to_string, digit_value}
use open_beanie.Base.Result.{ok}
use open_beanie.Chains.{Chain, chain_by_key, wire}
use open_beanie.Identity.{
  CctpRoute, route_of, same_chain_route, big_int, to_hex, recipient_hex, canonical_address,
  cctp_route,
}

-- The low half has 128 bits, and the halves make up the recipient.
abbrev pub Splits : CctpRoute → Type 0
Splits r =
    (big_int r.low < 2 ^ 128) × (big_int r.low + big_int r.high * 2 ^ 128 ≡ big_int r.recipient32)

route_of-Splits : (name_hex recipient : Text) → Splits (route_of name_hex recipient)
route_of-Splits name_hex recipient =
    let n = of_string 16 recipient in
    rw
      (
        of_string-to_string 16 (low_bits n 128) (omega arith) (omega arith),
        of_string-to_string 16 (shr n 128) (omega arith) (omega arith),
      )
      (omega arith, omega arith)

same_chain_route-Splits : Splits same_chain_route
unfolding of_string of_digits digit_value
same_chain_route-Splits = (omega arith, refl)

-- A route that is computed is the one within a chain, or that of a canonical recipient.
route_cases :
    (source target recipient : Text) (r : CctpRoute)
    → cctp_route source target recipient ≡ ok r
    → ((wire source ≡ wire target) × (r ≡ same_chain_route))
      ⊎ ((chain : Chain) × (canonical : Text) × (chain_by_key (wire target) ≡ some chain)
          × (canonical_address (wire target) recipient ≡ some canonical)
          × (r ≡ route_of (to_hex (wire target)) (recipient_hex chain.kind canonical)))
unfolding cctp_route
route_cases source target recipient r h =
    elim (Bool-cases (length target == 0 || length recipient == 0)) [
      | inl e ↦ cc (rw (cctp_route, e) at h)
      | inr e ↦ elim (Bool-cases (text_eq (wire source) (wire target))) [
        | inl t ↦
            inl ((text_eq_iff (wire source) (wire target)).0 t, cc (rw (cctp_route, e, t) at h))
        | inr t ↦ elim (Option-cases (chain_by_key (wire target))) [
          | inl c ↦ cc (rw (cctp_route, e, t, c) at h)
          | inr (chain, c) ↦ elim (Option-cases (canonical_address (wire target) recipient)) [
            | inl k ↦ cc (rw (cctp_route, e, t, c, k) at h)
            | inr (canonical, k) ↦
                inr (chain, canonical, c, k, cc (rw (cctp_route, e, t, c, k) at h))
          ]
        ]
      ]
    ]

-- In every route that is computed, the low half of the recipient has at most 128 bits, and low +
-- high * 2^128 is the recipient.
pub cctp_route-Splits :
    (source target recipient : Text) (r : CctpRoute)
    → cctp_route source target recipient ≡ ok r
    → Splits r
cctp_route-Splits source target recipient r h = elim (route_cases source target recipient r h) [
  | inl (_, e) ↦ rw e same_chain_route-Splits
  | inr (chain, canonical, _, _, e) ↦
      rw e (route_of-Splits (to_hex (wire target)) (recipient_hex chain.kind canonical))
]
