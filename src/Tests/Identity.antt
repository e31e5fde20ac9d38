-- ===== src/Tests/Identity.antt =====
-- The theorems on identity.js at concrete addresses and routes.
use open_beanie.Base.{◌≡◌, refl, some, none, Text, codes, text_eq}
use open_beanie.Base.Positional.{digits_loop, of_digits}
use open_beanie.Base.Strings.{
  to_string, of_string, to_upper, upper_unit, to_lower, lower_unit, trim, trim_start, digit,
  digit_value,
}
use open_beanie.Base.Result.{ok}
use open_beanie.Chains.{wire, chain_by_key, find_chain}
use open_beanie.Solana.Program.{strip_0x}
use open_beanie.Identity.{
  canonical_evm, canonical_felt, canonical_address, cctp_route, CctpRoute, to_hex, recipient_hex,
}
use open_beanie.Identity.Canonical.{canonical_evm-not_felt}
use open_beanie.Identity.Route.{Splits, cctp_route-Splits}

abbrev spaced : Text
spaced = codes " 0x833589fCD6eDb6E08f4c7C32D4f71b54bdA02913"

abbrev lower_case : Text
lower_case = codes "0x833589fcd6edb6e08f4c7c32d4f71b54bda02913"

spaced_canonical : canonical_evm spaced ≡ some lower_case
unfolding canonical_evm trim trim_start to_lower lower_unit
spaced_canonical = refl

canonical_evm-not_felt_example : canonical_felt spaced ≡ none
canonical_evm-not_felt_example = canonical_evm-not_felt spaced lower_case spaced_canonical

abbrev short_felt : Text
short_felt = codes "0X33068f6539f8e6e6b131e6B2B814e6c34A5224bC66947c47DaB9dFeE93b35fb"

abbrev full_felt : Text
full_felt = codes "0x033068f6539f8e6e6b131e6b2b814e6c34a5224bc66947c47dab9dfee93b35fb"

felt_canonical : canonical_felt short_felt ≡ some full_felt
unfolding canonical_felt strip_0x trim trim_start to_lower lower_unit of_string digit_value
    of_digits
felt_canonical = refl

abbrev to_base : CctpRoute
to_base = record {
  chain32 = codes "0x4241534500000000000000000000000000000000000000000000000000000000";
  recipient32 = codes "0x000000000000000000000000833589fcd6edb6e08f4c7c32d4f71b54bda02913";
  chain_felt = codes "0x42415345";
  low = codes "0xd6edb6e08f4c7c32d4f71b54bda02913";
  high = codes "0x833589fc";
}

route : cctp_route (codes "SOLANA") (codes "base") spaced ≡ ok to_base
unfolding cctp_route wire chain_by_key find_chain to_upper upper_unit text_eq canonical_address
    canonical_evm trim trim_start to_lower lower_unit recipient_hex strip_0x to_hex to_string
    digits_loop digit of_string digit_value of_digits
route = refl

cctp_route-Splits_example : Splits to_base
cctp_route-Splits_example = cctp_route-Splits (codes "SOLANA") (codes "base") spaced to_base route

on_base : canonical_address (codes "BASE") spaced ≡ some lower_case
unfolding canonical_address canonical_evm wire chain_by_key find_chain to_upper upper_unit text_eq
    trim trim_start to_lower lower_unit
on_base = refl
